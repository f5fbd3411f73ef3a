-- ===== src/Async/Stage.antt =====
-- A component on the page: its state, and the handlers that wait. A control of the current view
-- starts a handler, an effect may run, and a reply, an answer of the user or a choice of the
-- scheduler resumes a handler.
use webhook_listener.Prelude.{Bool, List, [], ◌∷◌, ◌++◌, String}
use webhook_listener.Async.{Act, pure, throw, update, send, ask, await, choose, Reply}
use webhook_listener.View.{View, Offers}

pub record Stage (S : Type 0) : Type 0 where
  pub ui : S
  pub running : List (Act S Unit)

-- What a handler does to the state until its next wait.
unfoldable pub after : {S : Type 0} → Act S Unit → S → S
after (update g m) s = after m (g s)
after (send r m) s = after m s
after a s = s

-- The handler at its next wait, or nothing if it ends before.
unfoldable pub residue : {S : Type 0} → Act S Unit → List (Act S Unit)
residue (pure a) = []
residue (throw e) = []
residue (update g m) = residue m
residue (send r m) = residue m
residue (ask q k) = ask q k ∷ []
residue (await k) = await k ∷ []
residue (choose k) = choose k ∷ []

abbrev pub begin : {S : Type 0} → Act S Unit → S → List (Act S Unit) → Stage S
begin act s rest = record { ui = after act s; running = residue act ++ rest }

-- What a waiting handler goes on with.
pub data Resumes {S : Type 0} : Act S Unit → Act S Unit → Type 0 where
  answer : (q : String) (k : Bool → Act S Unit) (b : Bool) → Resumes (ask q k) (k b)
  reply : (k : Reply → Act S Unit) (x : Reply) → Resumes (await k) (k x)
  choice : (k : Bool → Act S Unit) (b : Bool) → Resumes (choose k) (k b)

-- One `a` of the first list stands as `bs` in the second.
pub data Replace {A : Type 0} (a : A) (bs : List A) : List A → List A → Type 0 where
  first : (rest : List A) → Replace a bs (a ∷ rest) (bs ++ rest)
  later : {xs ys : List A} (x : A) → Replace a bs xs ys → Replace a bs (x ∷ xs) (x ∷ ys)

module _ {S : Type 0} where
  -- One waiting handler of the first list goes on to its next wait.
  pub data Resumed : List (Act S Unit) → List (Act S Unit) → Act S Unit → Type 0 where
    resumed :
        {a b : Act S Unit} {xs ys : List (Act S Unit)}
        → Resumes a b
        → Replace a (residue b) xs ys
        → Resumed xs ys b

-- `opening` are the effects of the first render, and `effect` tells those that may run again when the
-- state or the properties of the component change.
pub record Component (S M : Type 0) : Type 1 where
  pub start : S
  pub opening : List (Act S Unit)
  pub view : S → View M
  pub on : S → M → Act S Unit
  pub effect : S → Act S Unit → Type 0

abbrev pub begin_all : {S : Type 0} → List (Act S Unit) → Stage S → Stage S
begin_all [] t = t
begin_all (a ∷ as') t = begin_all as' (begin a t.ui t.running)

abbrev pub NoEffect : {S : Type 0} → S → Act S Unit → Type 0
NoEffect s a = ⊥

module _ {S M : Type 0} (c : Component S M) where
  pub data Step : Stage S → Stage S → Type 0 where
    click :
        (t : Stage S) (m : M) → Offers (c.view t.ui) m → Step t (begin (c.on t.ui m) t.ui t.running)
    rerun : (t : Stage S) (a : Act S Unit) → c.effect t.ui a → Step t (begin a t.ui t.running)
    resume :
        (t : Stage S) {b : Act S Unit} {ys : List (Act S Unit)}
        → Resumed t.running ys b
        → Step t (record { ui = after b t.ui; running = ys })

  abbrev pub opened : Stage S
  opened = begin_all c.opening (record { ui = c.start; running = [] })

  pub data Reach : Stage S → Type 0 where
    here : Reach opened
    next : {t u : Stage S} → Reach t → Step t u → Reach u
