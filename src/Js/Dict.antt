-- ===== src/Js/Dict.antt =====
-- JavaScript objects that serve as dictionaries: `m[k]`, `{ ...m, [k]: v }` and `delete m[k]`.
-- Only own properties are modelled: a key such as "constructor", which every object inherits, is
-- read as absent.
use webhook_listener.Prelude.{
  ◌≡◌, refl, List, [], ◌∷◌, String, ◌==◌, eq_iff, Option, none, some, if◌then◌else◌, arith,
}

abbrev pub Dict {ℓ} : Type ℓ → Type ℓ
Dict V = List (String × V)

module _ {ℓ} {V : Type ℓ} where
  unfoldable pub get : String → Dict V → Option V
  get k [] = none
  get k ((j, v) ∷ m) = if j == k then some v else get k m

  unfoldable pub put : String → V → Dict V → Dict V
  put k v [] = (k, v) ∷ []
  put k v ((j, w) ∷ m) = if j == k then (k, v) ∷ m else (j, w) ∷ put k v m

  unfoldable pub remove : String → Dict V → Dict V
  remove k [] = []
  remove k ((j, v) ∷ m) = let rest = remove k m in if j == k then rest else (j, v) ∷ rest

  -- m[k] || d, where every value of `m` is truthy
  unfoldable pub get_or : String → V → Dict V → V
  get_or k d m = elim (get k m) [ none ↦ d | some v ↦ v ]

  pub get-put :
      (k j : String) (v : V) (m : Dict V) → get j (put k v m) ≡ (if k == j then some v else get j m)
  unfolding get put
  get-put k j v [] = refl
  get-put k j v ((i, w) ∷ m) = ground (arith, eq_iff k j, eq_iff i k, eq_iff i j, get-put k j v m)

  pub get-remove :
      (k j : String) (m : Dict V) → get j (remove k m) ≡ (if k == j then none else get j m)
  unfolding get remove
  get-remove k j [] = ground arith
  get-remove k j ((i, w) ∷ m) = ground (arith, eq_iff k j, eq_iff i k, eq_iff i j, get-remove k j m)

  pub get_or-put :
      (k j : String) (d v : V) (m : Dict V)
      → get_or j d (put k v m) ≡ (if k == j then v else get_or j d m)
  unfolding get_or
  get_or-put k j d v m = ground (arith, get-put k j v m)

pub ruleset dict_laws = (get-put, get-remove, get_or-put)
