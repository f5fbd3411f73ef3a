-- ===== src/Async.antt =====
-- Asynchronous handlers of React components. A handler is a tree of what it does: it sets state,
-- sends a request, asks the user, waits for a reply, returns or throws. What it reads of the state
-- is what its closure captured, so a handler takes that as an argument.
-- `exec` runs a handler against a sequence of turns: each turn is what the world answers at one
-- wait, with whatever other handlers did to the state during that wait.
pub mod Laws
pub mod Steps
pub mod Stage
pub mod Waits
pub mod Flight
use webhook_listener.Prelude.{
  ℕ, ◌≡◌, refl, Bool, true, false, ◌&&◌, List, [], ◌∷◌, ◌++◌, String, Option, none, some, leb,
  if◌then◌else◌,
}
use webhook_listener.Js.Value.{Value}
use webhook_listener.Js.Dict.{Dict}

-- The arguments of `fetch`.
pub record Request : Type 0 where
  pub path : String
  pub method : String
  pub headers : Dict String
  pub credentials : String
  pub body : Option String

-- What `fetch` and reading the text come to: a rejection with its message, or a response.
pub data Reply : Type 0 where
  failed : String → Reply
  responded : ℕ → String → Reply

-- response.ok
abbrev pub is_ok : ℕ → Bool
is_ok status = leb 200 status && leb status 299

pub data Result {ℓ} (A : Type ℓ) : Type ℓ where
  ok : A → Result A
  err : String → Result A

pub data Act {ℓ} (S A : Type ℓ) : Type ℓ where
  pure : A → Act S A
  throw : String → Act S A
  update : (S → S) → Act S A → Act S A
  send : Request → Act S A → Act S A
  ask : String → (Bool → Act S A) → Act S A
  await : (Reply → Act S A) → Act S A
  choose : (Bool → Act S A) → Act S A

infixl 5 ◌>>=◌ ◌>>◌
unfoldable pub ◌>>=◌ {ℓ} : {S A B : Type ℓ} → Act S A → (A → Act S B) → Act S B
pure a >>= f = f a
throw e >>= f = throw e
update g m >>= f = update g (m >>= f)
send r m >>= f = send r (m >>= f)
ask q k >>= f = ask q (λ b. k b >>= f)
await k >>= f = await (λ x. k x >>= f)
choose k >>= f = choose (λ b. k b >>= f)

abbrev pub ◌>>◌ {ℓ} : {S A B : Type ℓ} → Act S A → Act S B → Act S B
m >> n = m >>= λ _. n

-- try { m } catch (e) { h(e) }
unfoldable pub catch {ℓ} : {S A : Type ℓ} → Act S A → (String → Act S A) → Act S A
catch (pure a) h = pure a
catch (throw e) h = h e
catch (update g m) h = update g (catch m h)
catch (send r m) h = send r (catch m h)
catch (ask q k) h = ask q (λ b. catch (k b) h)
catch (await k) h = await (λ x. catch (k x) h)
catch (choose k) h = choose (λ b. catch (k b) h)

-- try { m } finally { set state by g }
unfoldable pub finally {ℓ} : {S A : Type ℓ} → Act S A → (S → S) → Act S A
finally (pure a) g = update g (pure a)
finally (throw e) g = update g (throw e)
finally (update f m) g = update f (finally m g)
finally (send r m) g = send r (finally m g)
finally (ask q k) g = ask q (λ b. finally (k b) g)
finally (await k) g = await (λ x. finally (k x) g)
finally (choose k) g = choose (λ b. finally (k b) g)

-- Promise.allSettled([m, n]): both run to their ends, and the world chooses which waits less.
unfoldable pub settle_both {ℓ} :
    {S : Type ℓ} → Act S (Unit {ℓ}) → Act S (Unit {ℓ}) → Act S (Unit {ℓ})
settle_both (pure a) n = catch n (λ _. pure tt)
settle_both (throw e) n = catch n (λ _. pure tt)
settle_both (update g m) n = update g (settle_both m n)
settle_both (send r m) n = send r (settle_both m n)
settle_both (ask q k) n = ask q (λ b. settle_both (k b) n)
settle_both (choose k) n = choose (λ b. settle_both (k b) n)
settle_both (await k) (pure a) = await (λ x. settle_both (k x) (pure a))
settle_both (await k) (throw e) = await (λ x. settle_both (k x) (throw e))
settle_both (await k) (update g n) = update g (settle_both (await k) n)
settle_both (await k) (send r n) = send r (settle_both (await k) n)
settle_both (await k) (ask q l) = ask q (λ b. settle_both (await k) (l b))
settle_both (await k) (choose l) = choose (λ b. settle_both (await k) (l b))
settle_both (await k) (await l) = choose λ b. elim b [
  | true ↦ await (λ x. settle_both (k x) (await l))
  | false ↦ await (λ y. settle_both (await k) (l y))
]

-- Promise.all over requests that set no state: the first rejection in time wins.
unfoldable pub join_both {ℓ} : {S A B : Type ℓ} → Act S A → Act S B → (A → B → Act S B) → Act S B
join_both (pure a) n f = n >>= f a
join_both (throw e) n f = throw e
join_both (update g m) n f = update g (join_both m n f)
join_both (send r m) n f = send r (join_both m n f)
join_both (ask q k) n f = ask q (λ b. join_both (k b) n f)
join_both (choose k) n f = choose (λ b. join_both (k b) n f)
join_both (await k) (pure b) f = await (λ x. join_both (k x) (pure b) f)
join_both (await k) (throw e) f = throw e
join_both (await k) (update g n) f = update g (join_both (await k) n f)
join_both (await k) (send r n) f = send r (join_both (await k) n f)
join_both (await k) (ask q l) f = ask q (λ b. join_both (await k) (l b) f)
join_both (await k) (choose l) f = choose (λ b. join_both (await k) (l b) f)
join_both (await k) (await l) f = choose λ b. elim b [
  | true ↦ await (λ x. join_both (k x) (await l) f)
  | false ↦ await (λ y. join_both (await k) (l y) f)
]

module _ {ℓ} {S A : Type ℓ} where
  -- Promise.all(ms)
  unfoldable pub gather : List (Act S A) → Act S (List A)
  unfolding join_both
  gather [] = pure []
  gather (m ∷ ms) = join_both m (gather ms) (λ a as'. pure (a ∷ as'))

-- What the world does at one wait.
pub record Turn {ℓ} (S : Type ℓ) : Type ℓ where
  pub reply : Reply
  pub answer : Bool
  pub meanwhile : S → S

-- The state of the component, and the requests sent so far, in order.
pub record World {ℓ} (S : Type ℓ) : Type ℓ where
  pub ui : S
  pub sent : List Request

pub data Run {ℓ} (S A : Type ℓ) : Type ℓ where
  finished : Result A → List (Turn S) → World S → Run S A
  waiting : World S → Run S A

module _ {ℓ} {S : Type ℓ} where
  abbrev pub set_ui : (S → S) → World S → World S
  set_ui g w = record { ui = g w.ui; sent = w.sent }

  abbrev pub add_sent : Request → World S → World S
  add_sent r w = record { ui = w.ui; sent = w.sent ++ r ∷ [] }

module _ {ℓ} {S A : Type ℓ} where
  unfoldable pub exec : Act S A → List (Turn S) → World S → Run S A
  exec (pure a) ts w = finished (ok a) ts w
  exec (throw e) ts w = finished (err e) ts w
  exec (update g m) ts w = exec m ts (set_ui g w)
  exec (send r m) ts w = exec m ts (add_sent r w)
  exec (ask q k) [] w = waiting w
  exec (ask q k) (t ∷ ts) w = exec (k t.answer) ts w
  exec (await k) [] w = waiting w
  exec (await k) (t ∷ ts) w = exec (k t.reply) ts (set_ui t.meanwhile w)
  exec (choose k) [] w = waiting w
  exec (choose k) (t ∷ ts) w = exec (k t.answer) ts w
