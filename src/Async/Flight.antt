-- ===== src/Async/Flight.antt =====
-- Handlers that hold a flag of the state while they run, and handlers that leave it alone.
pub mod Rules
pub mod Kept
pub mod Rest
pub mod Single
use webhook_listener.Prelude.{
  ◌≡◌, refl, ◌∙◌, Bool, true, false, String, List, [], ◌∷◌, ◌++◌, ◌⊎◌, inl, inr, All, if◌then◌else◌,
}
use webhook_listener.Async.{
  Act, pure, throw, update, send, ask, await, choose, Request, Reply, ◌>>=◌, catch, finally, Result,
  ok, err,
}
use webhook_listener.Async.Steps.{from_result}
use webhook_listener.Async.Stage.{
  Stage, after, residue, Replace, first, later, Resumes, answer, reply, choice,
}
use webhook_listener.View.{View, Offers}

module _ {S : Type 0} (busy : S → Bool) where
  -- Whatever it waits for, the handler never changes the flag.
  unfoldable pub Quiet : {A : Type 0} → Act S A → Type 0
  Quiet (pure a) = Unit
  Quiet (throw e) = Unit
  Quiet (update g m) = ((s : S) → busy (g s) ≡ busy s) × Quiet m
  Quiet (send r m) = Quiet m
  Quiet (ask q k) = (b : Bool) → Quiet (k b)
  Quiet (await k) = (x : Reply) → Quiet (k x)
  Quiet (choose k) = (b : Bool) → Quiet (k b)

  -- The handler sends nothing more, waits for nothing more, and leaves the flag alone.
  unfoldable pub Ends : {A : Type 0} → Act S A → Type 0
  Ends (pure a) = Unit
  Ends (throw e) = Unit
  Ends (update g m) = ((s : S) → busy (g s) ≡ busy s) × Ends m
  Ends (send r m) = ⊥
  Ends (ask q k) = ⊥
  Ends (await k) = ⊥
  Ends (choose k) = ⊥

  -- The handler finds the flag up, keeps it up while it sends and waits, and takes it down when it
  -- neither sends nor waits any more.
  unfoldable pub Holds : {A : Type 0} → Act S A → Type 0
  Holds (pure a) = ⊥
  Holds (throw e) = ⊥
  Holds (update g m) =
      (((s : S) → busy (g s) ≡ busy s) × Holds m) ⊎ (((s : S) → busy (g s) ≡ false) × Ends m)
  Holds (send r m) = Holds m
  Holds (ask q k) = (b : Bool) → Holds (k b)
  Holds (await k) = (x : Reply) → Holds (k x)
  Holds (choose k) = (b : Bool) → Holds (k b)

  -- The handler puts the flag up before it waits, and holds it from there.
  unfoldable pub Takes : {A : Type 0} → Act S A → Type 0
  Takes (update g m) = ((s : S) → busy (g s) ≡ true) × Holds m
  Takes m = ⊥

  -- One handler of the list holds the flag, and the others leave it alone.
  abbrev pub OneHolds : List (Act S Unit) → Type 0
  OneHolds [] = ⊥
  OneHolds (a ∷ as') = (Holds a × All Quiet as') ⊎ (Quiet a × OneHolds as')

  -- The flag is down and nobody holds it, or it is up and exactly one handler does.
  abbrev pub IsSingle : Bool → List (Act S Unit) → Type 0
  IsSingle flag as' = ((flag ≡ false) × All Quiet as') ⊎ ((flag ≡ true) × OneHolds as')

  pub after-Quiet :
      (a : Act S Unit) (s : S) → Quiet a → (busy (after a s) ≡ busy s) × All Quiet (residue a)
  unfolding after residue Quiet
  after-Quiet (pure a) s q = (refl, tt)
  after-Quiet (throw e) s q = (refl, tt)
  after-Quiet (update g m) s q = let r = after-Quiet m (g s) q.1 in (r.0 ∙ q.0 s, r.1)
  after-Quiet (send r m) s q = after-Quiet m s q
  after-Quiet (ask t k) s q = (refl, (q, tt))
  after-Quiet (await k) s q = (refl, (q, tt))
  after-Quiet (choose k) s q = (refl, (q, tt))

  Quiet-Ends : (a : Act S Unit) → Ends a → Quiet a
  unfolding Quiet Ends
  Quiet-Ends (pure a) h = tt
  Quiet-Ends (throw e) h = tt
  Quiet-Ends (update g m) h = (h.0, Quiet-Ends m h.1)
  Quiet-Ends (send r m) h = elim h [ ]
  Quiet-Ends (ask q k) h = elim h [ ]
  Quiet-Ends (await k) h = elim h [ ]
  Quiet-Ends (choose k) h = elim h [ ]

  pub after-Holds :
      (a : Act S Unit) (s : S) → Holds a → busy s ≡ true → IsSingle (busy (after a s)) (residue a)
  unfolding after residue Holds
  after-Holds (pure a) s h e = elim h [ ]
  after-Holds (throw x) s h e = elim h [ ]
  after-Holds (update g m) s (inl h) e = after-Holds m (g s) h.1 (h.0 s ∙ e)
  after-Holds (update g m) s (inr h) e =
      let r = after-Quiet m (g s) (Quiet-Ends m h.1) in inl (r.0 ∙ h.0 s, r.1)
  after-Holds (send r m) s h e = after-Holds m s h e
  after-Holds (ask t k) s h e = inr (e, inl (h, tt))
  after-Holds (await k) s h e = inr (e, inl (h, tt))
  after-Holds (choose k) s h e = inr (e, inl (h, tt))

  pub after-Takes : (a : Act S Unit) (s : S) → Takes a → IsSingle (busy (after a s)) (residue a)
  unfolding after residue Takes
  after-Takes (update g m) s h = after-Holds m (g s) h.1 (h.0 s)
  after-Takes (pure a) s h = elim h [ ]
  after-Takes (throw e) s h = elim h [ ]
  after-Takes (send r m) s h = elim h [ ]
  after-Takes (ask q k) s h = elim h [ ]
  after-Takes (await k) s h = elim h [ ]
  after-Takes (choose k) s h = elim h [ ]

  All-Quiet-append :
      (as' bs : List (Act S Unit)) → All Quiet as' → All Quiet bs → All Quiet (as' ++ bs)
  All-Quiet-append [] bs h k = k
  All-Quiet-append (a ∷ as') bs h k = (h.0, All-Quiet-append as' bs h.1 k)

  OneHolds-append_left :
      (as' bs : List (Act S Unit)) → OneHolds as' → All Quiet bs → OneHolds (as' ++ bs)
  OneHolds-append_left [] bs h k = elim h [ ]
  OneHolds-append_left (a ∷ as') bs (inl h) k = inl (h.0, All-Quiet-append as' bs h.1 k)
  OneHolds-append_left (a ∷ as') bs (inr h) k = inr (h.0, OneHolds-append_left as' bs h.1 k)

  OneHolds-append_right :
      (as' bs : List (Act S Unit)) → All Quiet as' → OneHolds bs → OneHolds (as' ++ bs)
  OneHolds-append_right [] bs h k = k
  OneHolds-append_right (a ∷ as') bs h k = inr (h.0, OneHolds-append_right as' bs h.1 k)

  pub IsSingle-append-Quiet :
      (flag : Bool) (as' bs : List (Act S Unit))
      → IsSingle flag as'
      → All Quiet bs
      → IsSingle flag (as' ++ bs)
  IsSingle-append-Quiet flag as' bs (inl h) k = inl (h.0, All-Quiet-append as' bs h.1 k)
  IsSingle-append-Quiet flag as' bs (inr h) k = inr (h.0, OneHolds-append_left as' bs h.1 k)

  pub Quiet-append-IsSingle :
      (flag : Bool) (as' bs : List (Act S Unit))
      → All Quiet as'
      → IsSingle flag bs
      → IsSingle flag (as' ++ bs)
  Quiet-append-IsSingle flag as' bs k (inl h) = inl (h.0, All-Quiet-append as' bs k h.1)
  Quiet-append-IsSingle flag as' bs k (inr h) = inr (h.0, OneHolds-append_right as' bs k h.1)

  pub Replace-Quiet :
      {a : Act S Unit} {bs xs ys : List (Act S Unit)}
      → Replace a bs xs ys
      → All Quiet xs
      → Quiet a × (All Quiet bs → All Quiet ys)
  Replace-Quiet {bs = bs} (first rest) h = (h.0, λ q. All-Quiet-append bs rest q h.1)
  Replace-Quiet (later x p) h = let r = Replace-Quiet p h.1 in (r.0, λ q. (h.0, r.1 q))

  pub Replace-OneHolds :
      {a : Act S Unit} {bs xs ys : List (Act S Unit)}
      → Replace a bs xs ys
      → OneHolds xs
      → (Holds a × ((flag : Bool) → IsSingle flag bs → IsSingle flag ys))
        ⊎ (Quiet a × (All Quiet bs → OneHolds ys))
  Replace-OneHolds {bs = bs} (first rest) (inl h) =
      inl (h.0, λ flag s. IsSingle-append-Quiet flag bs rest s h.1)
  Replace-OneHolds {bs = bs} (first rest) (inr h) =
      inr (h.0, λ q. OneHolds-append_right bs rest q h.1)
  Replace-OneHolds (later x p) (inl h) =
      let r = Replace-Quiet p h.1 in inr (r.0, λ q. inl (h.0, r.1 q))
  Replace-OneHolds (later {ys = ys} x p) (inr h) = elim (Replace-OneHolds p h.1) [
    | inl r ↦ inl (r.0, λ flag s. Quiet-append-IsSingle flag (x ∷ []) ys (h.0, tt) (r.1 flag s))
    | inr r ↦ inr (r.0, λ q. inr (h.0, r.1 q))
  ]

  pub Resumes-Quiet : {a b : Act S Unit} → Resumes a b → Quiet a → Quiet b
  unfolding Quiet
  Resumes-Quiet (answer q k b) h = h b
  Resumes-Quiet (reply k x) h = h x
  Resumes-Quiet (choice k b) h = h b

  pub Resumes-Holds : {a b : Act S Unit} → Resumes a b → Holds a → Holds b
  unfolding Holds
  Resumes-Holds (answer q k b) h = h b
  Resumes-Holds (reply k x) h = h x
  Resumes-Holds (choice k b) h = h b
