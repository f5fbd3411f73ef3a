-- ===== src/Async/Waits.antt =====
-- What handlers have done at their first wait.
use mathlib.Core.List.{append-nil, append_assoc}
use mathlib.Core.Path.{subst}
use webhook_listener.Prelude.{sym, ap, ◌≡◌, refl, ◌∙◌, List, [], ◌∷◌, ◌++◌, map}
use webhook_listener.Async.{
  Act, pure, throw, update, send, ask, await, choose, Request, Reply, join_both, gather, World, Run,
  finished, waiting, exec, set_ui, add_sent, ok, err,
}

module _ {S : Type 0} where
  -- The world where a run ends or waits.
  abbrev pub reached : {A : Type 0} → Run S A → World S
  reached (finished r ts w) = w
  reached (waiting w) = w

  -- The run has thrown nothing.
  abbrev pub IsCalm : {A : Type 0} → Run S A → Type 0
  IsCalm (finished (ok a) ts w) = Unit
  IsCalm (finished (err e) ts w) = ⊥
  IsCalm (waiting w) = Unit

  module _ {A B : Type 0} where
    -- Beside a request that waits, the other handler runs to its own first wait.
    pub exec-join_both_waiting :
        (k : Reply → Act S A) (n : Act S B) (f : A → B → Act S B) (w : World S)
        → IsCalm (exec n [] w)
        → exec (join_both (await k) n f) [] w ≡ waiting (reached (exec n [] w))
    unfolding exec join_both
    exec-join_both_waiting k (pure b) f w h = refl
    exec-join_both_waiting k (throw e) f w h = elim h [ ]
    exec-join_both_waiting k (update g n) f w h = exec-join_both_waiting k n f (set_ui g w) h
    exec-join_both_waiting k (send r n) f w h = exec-join_both_waiting k n f (add_sent r w) h
    exec-join_both_waiting k (ask q l) f w h = refl
    exec-join_both_waiting k (await l) f w h = refl
    exec-join_both_waiting k (choose l) f w h = refl

  module _ {X A : Type 0} (request : X → Request) (k : X → Reply → Act S A) where
    -- A call that sends one request and waits.
    abbrev pub call : X → Act S A
    call x = send (request x) (await (k x))

    abbrev pub add_all : List X → World S → World S
    add_all [] w = w
    add_all (x ∷ xs) w = add_all xs (add_sent (request x) w)

    -- Promise.all sends all its requests, in their order, before it waits.
    pub exec-gather :
        (x : X) (xs : List X) (w : World S)
        → exec (gather (map call (x ∷ xs))) [] w ≡ waiting (add_all (x ∷ xs) w)
    unfolding exec gather join_both
    exec-gather x [] w = refl
    exec-gather x (y ∷ xs) w =
        let e = exec-gather y xs (add_sent (request x) w) in
        exec-join_both_waiting (k x) (gather (map call (y ∷ xs))) _ (add_sent (request x) w)
          (subst IsCalm (sym e) tt)
        ∙ ap (λ r. waiting (reached r)) e

    pub sent-add_all :
        (xs : List X) (w : World S)
        → add_all xs w ≡ record { ui = w.ui; sent = w.sent ++ map request xs }
    sent-add_all [] w = ap (λ rs. record { ui = w.ui; sent = rs }) (sym (append-nil w.sent))
    sent-add_all (x ∷ xs) w =
        sent-add_all xs (add_sent (request x) w)
        ∙ ap (λ rs. record { ui = w.ui; sent = rs })
            (append_assoc w.sent (request x ∷ []) (map request xs))
