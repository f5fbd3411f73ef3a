-- ===== src/Async/Flight/Rules.antt =====
-- How the combinators of handlers keep, hold and take a flag.
use webhook_listener.Prelude.{
  List, [], ◌∷◌, map, ◌≡◌, Bool, true, false, String, inl, inr, if◌then◌else◌,
}
use webhook_listener.Async.{
  Act, pure, throw, update, send, ask, await, choose, ◌>>=◌, catch, finally, Result, ok, err,
  settle_both, join_both, gather,
}
use webhook_listener.Async.Steps.{from_result}
use webhook_listener.Async.Flight.{Quiet, Holds, Ends}

module _ {S : Type 0} (busy : S → Bool) where
  abbrev pub Keeps : (S → S) → Type 0
  Keeps g = (s : S) → busy (g s) ≡ busy s

  module _ {A B : Type 0} where
    pub Quiet-bind :
        (m : Act S A) (f : A → Act S B)
        → Quiet busy m
        → ((a : A) → Quiet busy (f a))
        → Quiet busy (m >>= f)
    unfolding Quiet ◌>>=◌
    Quiet-bind (pure a) f q h = h a
    Quiet-bind (throw e) f q h = tt
    Quiet-bind (update g m) f q h = (q.0, Quiet-bind m f q.1 h)
    Quiet-bind (send r m) f q h = Quiet-bind m f q h
    Quiet-bind (ask t k) f q h = λ b. Quiet-bind (k b) f (q b) h
    Quiet-bind (await k) f q h = λ x. Quiet-bind (k x) f (q x) h
    Quiet-bind (choose k) f q h = λ b. Quiet-bind (k b) f (q b) h

  pub Quiet-throw : (A : Type 0) (e : String) → Quiet busy {A = A} (throw e)
  unfolding Quiet
  Quiet-throw A e = tt

  module _ {A : Type 0} where
    Quiet-branches :
        (m n : Act S A)
        → Quiet busy m
        → Quiet busy n
        → (b : Bool) → Quiet busy (elim b [ true ↦ m | false ↦ n ])
    Quiet-branches m n p q true = p
    Quiet-branches m n p q false = q

    pub Quiet-pure : (a : A) → Quiet busy {A = A} (pure a)
    unfolding Quiet
    Quiet-pure a = tt

    pub Quiet-update : (g : S → S) (m : Act S A) → Keeps g → Quiet busy m → Quiet busy (update g m)
    unfolding Quiet
    Quiet-update g m h q = (h, q)

    pub Quiet-ask :
        (t : String) (k : Bool → Act S A) → ((b : Bool) → Quiet busy (k b)) → Quiet busy (ask t k)
    unfolding Quiet
    Quiet-ask t k h = h

    pub Quiet-choose :
        (k : Bool → Act S A) → ((b : Bool) → Quiet busy (k b)) → Quiet busy (choose k)
    unfolding Quiet
    Quiet-choose k h = h

    pub Quiet-catch :
        (m : Act S A) (h : String → Act S A)
        → Quiet busy m
        → ((e : String) → Quiet busy (h e))
        → Quiet busy (catch m h)
    unfolding Quiet catch
    Quiet-catch (pure a) h q k = tt
    Quiet-catch (throw e) h q k = k e
    Quiet-catch (update g m) h q k = (q.0, Quiet-catch m h q.1 k)
    Quiet-catch (send r m) h q k = Quiet-catch m h q k
    Quiet-catch (ask t f) h q k = λ b. Quiet-catch (f b) h (q b) k
    Quiet-catch (await f) h q k = λ x. Quiet-catch (f x) h (q x) k
    Quiet-catch (choose f) h q k = λ b. Quiet-catch (f b) h (q b) k

    pub Quiet-finally :
        (m : Act S A) (g : S → S) → Quiet busy m → Keeps g → Quiet busy (finally m g)
    unfolding Quiet finally
    Quiet-finally (pure a) g q k = (k, tt)
    Quiet-finally (throw e) g q k = (k, tt)
    Quiet-finally (update f m) g q k = (q.0, Quiet-finally m g q.1 k)
    Quiet-finally (send r m) g q k = Quiet-finally m g q k
    Quiet-finally (ask t f) g q k = λ b. Quiet-finally (f b) g (q b) k
    Quiet-finally (await f) g q k = λ x. Quiet-finally (f x) g (q x) k
    Quiet-finally (choose f) g q k = λ b. Quiet-finally (f b) g (q b) k

    -- A quiet handler that at last takes the flag down holds it until then.
    pub Holds-finally :
        (m : Act S A) (g : S → S)
        → Quiet busy m
        → ((s : S) → busy (g s) ≡ false)
        → Holds busy (finally m g)
    unfolding Quiet Holds Ends finally
    Holds-finally (pure a) g q k = inr (k, tt)
    Holds-finally (throw e) g q k = inr (k, tt)
    Holds-finally (update f m) g q k = inl (q.0, Holds-finally m g q.1 k)
    Holds-finally (send r m) g q k = Holds-finally m g q k
    Holds-finally (ask t f) g q k = λ b. Holds-finally (f b) g (q b) k
    Holds-finally (await f) g q k = λ x. Holds-finally (f x) g (q x) k
    Holds-finally (choose f) g q k = λ b. Holds-finally (f b) g (q b) k

    pub Quiet-from_result : (r : Result A) → Quiet busy (from_result r)
    unfolding Quiet
    Quiet-from_result (ok a) = tt
    Quiet-from_result (err e) = tt

    pub Quiet-if :
        (b : Bool) (m n : Act S A) → Quiet busy m → Quiet busy n → Quiet busy (if b then m else n)
    Quiet-if true m n p q = p
    Quiet-if false m n p q = q

  pub Quiet-settle_both :
      (m n : Act S Unit) → Quiet busy m → Quiet busy n → Quiet busy (settle_both m n)
  unfolding Quiet settle_both
  Quiet-settle_both (pure a) n q r = Quiet-catch n (λ e. pure tt) r (λ e. tt)
  Quiet-settle_both (throw e) n q r = Quiet-catch n (λ e. pure tt) r (λ e. tt)
  Quiet-settle_both (update g m) n q r = (q.0, Quiet-settle_both m n q.1 r)
  Quiet-settle_both (send x m) n q r = Quiet-settle_both m n q r
  Quiet-settle_both (ask t k) n q r = λ b. Quiet-settle_both (k b) n (q b) r
  Quiet-settle_both (choose k) n q r = λ b. Quiet-settle_both (k b) n (q b) r
  Quiet-settle_both (await k) (pure a) q r = λ x. Quiet-settle_both (k x) (pure a) (q x) r
  Quiet-settle_both (await k) (throw e) q r = λ x. Quiet-settle_both (k x) (throw e) (q x) r
  Quiet-settle_both (await k) (update g n) q r = (r.0, Quiet-settle_both (await k) n q r.1)
  Quiet-settle_both (await k) (send x n) q r = Quiet-settle_both (await k) n q r
  Quiet-settle_both (await k) (ask t l) q r = λ b. Quiet-settle_both (await k) (l b) q (r b)
  Quiet-settle_both (await k) (choose l) q r = λ b. Quiet-settle_both (await k) (l b) q (r b)
  Quiet-settle_both (await k) (await l) q r =
      Quiet-branches (await (λ x. settle_both (k x) (await l)))
        (await (λ y. settle_both (await k) (l y))) (λ x. Quiet-settle_both (k x) (await l) (q x) r)
        (λ y. Quiet-settle_both (await k) (l y) q (r y))

  module _ {A B : Type 0} where
    pub Quiet-join_both :
        (m : Act S A) (n : Act S B) (f : A → B → Act S B)
        → Quiet busy m
        → Quiet busy n
        → ((a : A) (b : B) → Quiet busy (f a b))
        → Quiet busy (join_both m n f)
    unfolding Quiet join_both
    Quiet-join_both (pure a) n f q r h = Quiet-bind n (f a) r (h a)
    Quiet-join_both (throw e) n f q r h = tt
    Quiet-join_both (update g m) n f q r h = (q.0, Quiet-join_both m n f q.1 r h)
    Quiet-join_both (send x m) n f q r h = Quiet-join_both m n f q r h
    Quiet-join_both (ask t k) n f q r h = λ b. Quiet-join_both (k b) n f (q b) r h
    Quiet-join_both (choose k) n f q r h = λ b. Quiet-join_both (k b) n f (q b) r h
    Quiet-join_both (await k) (pure b) f q r h = λ x. Quiet-join_both (k x) (pure b) f (q x) r h
    Quiet-join_both (await k) (throw e) f q r h = tt
    Quiet-join_both (await k) (update g n) f q r h = (r.0, Quiet-join_both (await k) n f q r.1 h)
    Quiet-join_both (await k) (send x n) f q r h = Quiet-join_both (await k) n f q r h
    Quiet-join_both (await k) (ask t l) f q r h = λ b. Quiet-join_both (await k) (l b) f q (r b) h
    Quiet-join_both (await k) (choose l) f q r h = λ b. Quiet-join_both (await k) (l b) f q (r b) h
    Quiet-join_both (await k) (await l) f q r h =
        Quiet-branches (await (λ x. join_both (k x) (await l) f))
          (await (λ y. join_both (await k) (l y) f))
          (λ x. Quiet-join_both (k x) (await l) f (q x) r h)
          (λ y. Quiet-join_both (await k) (l y) f q (r y) h)

  pub Quiet-gather-map :
      {A B : Type 0} (f : A → Act S B) (xs : List A)
      → ((x : A) → Quiet busy (f x))
      → Quiet busy (gather (map f xs))
  unfolding gather Quiet
  Quiet-gather-map f [] h = tt
  Quiet-gather-map f (x ∷ xs) h =
      Quiet-join_both (f x) (gather (map f xs)) _ (h x) (Quiet-gather-map f xs h) (λ a b. tt)

  pub Quiet-gather-cons :
      {A B : Type 0} (f : A → Act S B) (x : A) (xs : List A)
      → ((y : A) → Quiet busy (f y))
      → Quiet busy (gather (f x ∷ map f xs))
  Quiet-gather-cons f x xs h = Quiet-gather-map f (x ∷ xs) h

pub ruleset quiet_rules = (
  Quiet-pure, Quiet-throw, Quiet-update, Quiet-ask, Quiet-bind, Quiet-catch, Quiet-finally,
  Quiet-from_result, Quiet-if, Quiet-settle_both, Quiet-choose, Quiet-gather-map, Quiet-gather-cons,
)
