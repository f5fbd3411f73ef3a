-- ===== src/Async/Flight/Kept.antt =====
-- Properties of the state that every handler of a component preserves.
use webhook_listener.Prelude.{Bool, List, [], ◌∷◌, ◌++◌, All}
use webhook_listener.Async.{Act, pure, throw, update, send, ask, await, choose, Reply}
use webhook_listener.Async.Stage.{
  Stage, after, residue, begin, begin_all, Replace, first, later, Resumes, answer, reply, choice,
  resumed, Component, Step, click, rerun, resume, Reach, here, next,
}
use webhook_listener.View.{Offers}

module _ {S : Type 0} (P : S → Type 0) where
  -- Whatever it waits for, the handler sets a state with `P` to states with `P` only.
  unfoldable pub Preserves : {A : Type 0} → Act S A → Type 0
  Preserves (pure a) = Unit
  Preserves (throw e) = Unit
  Preserves (update g m) = ((s : S) → P s → P (g s)) × Preserves m
  Preserves (send r m) = Preserves m
  Preserves (ask q k) = (b : Bool) → Preserves (k b)
  Preserves (await k) = (x : Reply) → Preserves (k x)
  Preserves (choose k) = (b : Bool) → Preserves (k b)

  after-Preserves :
      (a : Act S Unit) (s : S) → Preserves a → P s → P (after a s) × All Preserves (residue a)
  unfolding after residue Preserves
  after-Preserves (pure a) s q p = (p, tt)
  after-Preserves (throw e) s q p = (p, tt)
  after-Preserves (update g m) s q p = after-Preserves m (g s) q.1 (q.0 s p)
  after-Preserves (send r m) s q p = after-Preserves m s q p
  after-Preserves (ask t k) s q p = (p, (q, tt))
  after-Preserves (await k) s q p = (p, (q, tt))
  after-Preserves (choose k) s q p = (p, (q, tt))

  Resumes-Preserves : {a b : Act S Unit} → Resumes a b → Preserves a → Preserves b
  unfolding Preserves
  Resumes-Preserves (answer q k b) h = h b
  Resumes-Preserves (reply k x) h = h x
  Resumes-Preserves (choice k b) h = h b

  append-Preserves :
      (as' bs : List (Act S Unit))
      → All Preserves as'
      → All Preserves bs
      → All Preserves (as' ++ bs)
  append-Preserves [] bs h k = k
  append-Preserves (a ∷ as') bs h k = (h.0, append-Preserves as' bs h.1 k)

  Replace-Preserves :
      {a : Act S Unit} {bs xs ys : List (Act S Unit)}
      → Replace a bs xs ys
      → All Preserves xs
      → Preserves a × (All Preserves bs → All Preserves ys)
  Replace-Preserves {bs = bs} (first rest) h = (h.0, λ q. append-Preserves bs rest q h.1)
  Replace-Preserves (later x p) h = let r = Replace-Preserves p h.1 in (r.0, λ q. (h.0, r.1 q))

  -- The state has `P`, and the waiting handlers preserve it.
  abbrev pub IsKept : Stage S → Type 0
  IsKept t = P t.ui × All Preserves t.running

  begin-IsKept :
      (a : Act S Unit) (t : Stage S) → Preserves a → IsKept t → IsKept (begin a t.ui t.running)
  begin-IsKept a t q h =
      let r = after-Preserves a t.ui q h.0 in (r.0, append-Preserves (residue a) t.running r.1 h.1)

  begin_all-IsKept :
      (as' : List (Act S Unit)) (t : Stage S)
      → All Preserves as'
      → IsKept t
      → IsKept (begin_all as' t)
  begin_all-IsKept [] t q h = h
  begin_all-IsKept (a ∷ as') t q h = begin_all-IsKept as' _ q.1 (begin-IsKept a t q.0 h)

module _ {S M : Type 0} (P : S → Type 0) (c : Component S M) where
  -- The state starts with `P`, and all that the component can run preserves it.
  pub record Keeping : Type 0 where
    pub starts : P c.start
    pub opens : All (Preserves P) c.opening
    pub clicks : (s : S) (m : M) → Offers (c.view s) m → Preserves P (c.on s m)
    pub effects : (s : S) (a : Act S Unit) → c.effect s a → Preserves P a

  Step-IsKept : Keeping → {t u : Stage S} → Step c t u → IsKept P t → IsKept P u
  Step-IsKept g (click t m o) h = begin-IsKept P (c.on t.ui m) t (g.clicks t.ui m o) h
  Step-IsKept g (rerun t a e) h = begin-IsKept P a t (g.effects t.ui a e) h
  Step-IsKept g (resume t {b} (resumed r p)) h =
      let q = Replace-Preserves P p h.1 in
      let k = after-Preserves P b t.ui (Resumes-Preserves P r q.0) h.0 in (k.0, q.1 k.1)

  pub Reach-IsKept : Keeping → {t : Stage S} → Reach c t → IsKept P t
  Reach-IsKept g here = begin_all-IsKept P c.opening _ g.opens (g.starts, tt)
  Reach-IsKept g (next r s) = Step-IsKept g s (Reach-IsKept g r)
