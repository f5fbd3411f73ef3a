-- ===== src/Async/Laws.antt =====
-- How `exec` runs what the combinators build.
use webhook_listener.Prelude.{◌≡◌, refl, List, [], ◌∷◌, String}
use webhook_listener.Async.{
  Act, pure, throw, update, send, ask, await, choose, ◌>>=◌, catch, finally, exec, Run, finished,
  waiting, World, Turn, ok, err, set_ui,
}

module _ {ℓ} {S A B : Type ℓ} where
  abbrev pub run_then : Run S A → (A → List (Turn S) → World S → Run S B) → Run S B
  run_then (finished (ok a) ts w) f = f a ts w
  run_then (finished (err e) ts w) f = finished (err e) ts w
  run_then (waiting w) f = waiting w

  pub exec-bind :
      (m : Act S A) (f : A → Act S B) (ts : List (Turn S)) (w : World S)
      → exec (m >>= f) ts w ≡ run_then (exec m ts w) (λ a. exec (f a))
  unfolding exec ◌>>=◌
  exec-bind (pure a) f ts w = refl
  exec-bind (throw e) f ts w = refl
  exec-bind (update g m) f ts w = exec-bind m f ts (set_ui g w)
  exec-bind (send r m) f ts w = exec-bind m f ts _
  exec-bind (ask q k) f [] w = refl
  exec-bind (ask q k) f (t ∷ ts) w = exec-bind (k t.answer) f ts w
  exec-bind (await k) f [] w = refl
  exec-bind (await k) f (t ∷ ts) w = exec-bind (k t.reply) f ts _
  exec-bind (choose k) f [] w = refl
  exec-bind (choose k) f (t ∷ ts) w = exec-bind (k t.answer) f ts w

module _ {ℓ} {S A : Type ℓ} where
  abbrev pub run_catch : Run S A → (String → List (Turn S) → World S → Run S A) → Run S A
  run_catch (finished (ok a) ts w) h = finished (ok a) ts w
  run_catch (finished (err e) ts w) h = h e ts w
  run_catch (waiting w) h = waiting w

  pub exec-catch :
      (m : Act S A) (h : String → Act S A) (ts : List (Turn S)) (w : World S)
      → exec (catch m h) ts w ≡ run_catch (exec m ts w) (λ e. exec (h e))
  unfolding exec catch
  exec-catch (pure a) h ts w = refl
  exec-catch (throw e) h ts w = refl
  exec-catch (update g m) h ts w = exec-catch m h ts (set_ui g w)
  exec-catch (send r m) h ts w = exec-catch m h ts _
  exec-catch (ask q k) h [] w = refl
  exec-catch (ask q k) h (t ∷ ts) w = exec-catch (k t.answer) h ts w
  exec-catch (await k) h [] w = refl
  exec-catch (await k) h (t ∷ ts) w = exec-catch (k t.reply) h ts _
  exec-catch (choose k) h [] w = refl
  exec-catch (choose k) h (t ∷ ts) w = exec-catch (k t.answer) h ts w

  abbrev pub run_finally : Run S A → (S → S) → Run S A
  run_finally (finished r ts w) g = finished r ts (set_ui g w)
  run_finally (waiting w) g = waiting w

  pub exec-finally :
      (m : Act S A) (g : S → S) (ts : List (Turn S)) (w : World S)
      → exec (finally m g) ts w ≡ run_finally (exec m ts w) g
  unfolding exec finally
  exec-finally (pure a) g ts w = refl
  exec-finally (throw e) g ts w = refl
  exec-finally (update f m) g ts w = exec-finally m g ts (set_ui f w)
  exec-finally (send r m) g ts w = exec-finally m g ts _
  exec-finally (ask q k) g [] w = refl
  exec-finally (ask q k) g (t ∷ ts) w = exec-finally (k t.answer) g ts w
  exec-finally (await k) g [] w = refl
  exec-finally (await k) g (t ∷ ts) w = exec-finally (k t.reply) g ts _
  exec-finally (choose k) g [] w = refl
  exec-finally (choose k) g (t ∷ ts) w = exec-finally (k t.answer) g ts w
