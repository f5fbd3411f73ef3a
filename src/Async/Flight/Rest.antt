-- ===== src/Async/Flight/Rest.antt =====
-- Handlers that are only resumed.
use mathlib.Core.WellFounded.{Acc}
use webhook_listener.Prelude.{◌≡◌, Bool, List, [], ◌∷◌, ◌++◌, String}
use webhook_listener.Async.{Act, pure, throw, update, send, ask, await, choose, Reply}
use webhook_listener.Async.Stage.{
  Stage, residue, after, Replace, first, later, Resumes, answer, reply, choice, Resumed, resumed,
}

module _ {S : Type 0} where
  -- `ys` follows `xs` when one handler of `xs` is resumed.
  abbrev pub Follows : List (Act S Unit) → List (Act S Unit) → Type 0
  Follows ys xs = (b : Act S Unit) × Resumed xs ys b

  Follows-nil : {ys : List (Act S Unit)} → Follows ys [] → ⊥
  Follows-nil (b, resumed r p) = elim p [ ]

  -- What every continuation of a handler satisfies: beside handlers that come to rest, so does it.
  abbrev Settling : Act S Unit → Type 0
  Settling a =
      (b : Act S Unit)
      → Resumes a b
      → (rest : List (Act S Unit)) → Acc Follows rest
      → Acc Follows (residue b ++ rest)

  step-Acc :
      (a : Act S Unit) (rest : List (Act S Unit))
      → Settling a
      → Acc Follows rest
      → ((zs : List (Act S Unit)) → Follows zs rest → Acc Follows (a ∷ zs))
      → {c : Act S Unit} (b : Act S Unit) {ys : List (Act S Unit)} → Resumes c b
      → Replace c (residue b) (a ∷ rest) ys
      → Acc Follows ys
  step-Acc a rest ih w smaller b r (first _) = ih b r rest w
  step-Acc a rest ih w smaller b r (later {ys = zs} _ p) = smaller zs (b, resumed r p)

  Acc-Follows_cons :
      (a : Act S Unit) (rest : List (Act S Unit))
      → Settling a
      → Acc Follows rest
      → ((zs : List (Act S Unit)) → Follows zs rest → Acc Follows (a ∷ zs))
      → (ys : List (Act S Unit)) → Follows ys (a ∷ rest)
      → Acc Follows ys
  Acc-Follows_cons a rest ih w smaller ys (b, resumed r p) = step-Acc a rest ih w smaller b r p

  wait-Acc :
      (a : Act S Unit)
      → Settling a
      → (rest : List (Act S Unit)) → Acc Follows rest
      → Acc Follows (a ∷ rest)
  wait-Acc a ih rest (Acc.intro _ smaller) = Acc.intro (a ∷ rest) (
      Acc-Follows_cons a rest ih (Acc.intro rest smaller) (λ zs g. wait-Acc a ih zs (smaller zs g)))

  -- The same of one handler that goes on.
  abbrev Rests : Act S Unit → Type 0
  Rests a = (rest : List (Act S Unit)) → Acc Follows rest → Acc Follows (residue a ++ rest)

  Settling-ask :
      (q : String) (k : Bool → Act S Unit) → ((b : Bool) → Rests (k b)) → Settling (ask q k)
  Settling-ask q k h b (answer _ _ x) = h x

  Settling-await : (k : Reply → Act S Unit) → ((x : Reply) → Rests (k x)) → Settling (await k)
  Settling-await k h b (reply _ x) = h x

  Settling-choose : (k : Bool → Act S Unit) → ((b : Bool) → Rests (k b)) → Settling (choose k)
  Settling-choose k h b (choice _ x) = h x

  residue-Acc : (a : Act S Unit) → Rests a
  unfolding residue
  residue-Acc (pure a) rest w = w
  residue-Acc (throw e) rest w = w
  residue-Acc (update g m) rest w = residue-Acc m rest w
  residue-Acc (send r m) rest w = residue-Acc m rest w
  residue-Acc (ask q k) rest w =
      wait-Acc (ask q k) (Settling-ask q k (λ b. residue-Acc (k b))) rest w
  residue-Acc (await k) rest w =
      wait-Acc (await k) (Settling-await k (λ x. residue-Acc (k x))) rest w
  residue-Acc (choose k) rest w =
      wait-Acc (choose k) (Settling-choose k (λ b. residue-Acc (k b))) rest w

  -- Handlers that are only resumed come to rest, in whichever order and with whatever replies.
  pub Follows-Acc : (xs : List (Act S Unit)) → Acc Follows xs
  Follows-Acc [] = Acc.intro [] (λ ys f. elim (Follows-nil f) [ ])
  Follows-Acc (a ∷ xs) = wait-Acc a (λ b r. residue-Acc b) xs (Follows-Acc xs)

-- `P` comes true however the waiting handlers are resumed, unless it is true already.
pub data Inevitably {S : Type 0} (P : Stage S → Type 0) : Stage S → Type 0 where
  now : (t : Stage S) → P t → Inevitably P t
  wait :
      (t : Stage S)
      → (t.running ≡ [] → ⊥)
      → ((b : Act S Unit) (ys : List (Act S Unit))
          → Resumed t.running ys b
          → Inevitably P (record { ui = after b t.ui; running = ys }))
      → Inevitably P t
