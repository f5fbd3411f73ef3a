-- ===== src/Skills/Missing.antt =====
-- Which skills of a pack are installed.
use webhook_listener.Prelude.{
  ◌≡◌, refl, ap, eq_iff, Bool, true, false, not, ◌||◌, String, ◌==◌, eq_refl, List, [], ◌∷◌, ◌++◌,
  map, any, filter, All, arith, Bool-cases, inl, inr,
}
use webhook_listener.Js.Value.{Value, str, prop, is_text}
use webhook_listener.Skills.Packs.{Pack, PackSkill}
use webhook_listener.Skills.Install.{to_create}

-- Some existing skill has the key.
abbrev pub installed : List Value → PackSkill → Bool
installed existing skill = any (λ old. is_text (prop "skill_key" old) skill.skill_key) existing

missing : List Value → List PackSkill → List PackSkill
missing existing skills = filter (λ skill. not (installed existing skill)) skills

missing-All :
    (existing : List Value) (skills : List PackSkill)
    → All (λ skill. installed existing skill ≡ false) (missing existing skills)
unfolding missing
missing-All existing [] = tt
missing-All existing (s ∷ rest) = elim (Bool-cases (installed existing s)) [
  | inl old ↦ rw old (missing-All existing rest)
  | inr new ↦ rw new (new, missing-All existing rest)
]

any-append : (p : Value → Bool) (xs ys : List Value) → any p (xs ++ ys) ≡ (any p xs || any p ys)
any-append p [] ys = refl
any-append p (x ∷ xs) ys = ground (arith, any-append p xs ys)

any-rows :
    (row : PackSkill → Value) (skill : PackSkill) (made : List PackSkill)
    → ((s : PackSkill) → prop "skill_key" (row s) ≡ str s.skill_key)
    → installed (map row made) skill ≡ any (λ s. s.skill_key == skill.skill_key) made
any-rows row skill [] h = refl
any-rows row skill (s ∷ made) h = rw (h s) (ground (arith, any-rows row skill made h))

or_true : (b : Bool) → (b || true) ≡ true
or_true true = refl
or_true false = refl

or_other : (a b : Bool) → (a || b) ≡ true → a ≡ false → b ≡ true
or_other true b h e = cc
or_other false b h e = h

key_differs :
    (existing : List Value) (s skill : PackSkill)
    → installed existing s ≡ true
    → installed existing skill ≡ false
    → (s.skill_key == skill.skill_key) ≡ false
key_differs existing s skill old new =
    let by_key = λ (k : String). any (λ row. is_text (prop "skill_key" row) k) existing in
    elim (Bool-cases (s.skill_key == skill.skill_key)) [
      | inl same ↦
          let e : by_key s.skill_key ≡ by_key skill.skill_key =
            ap by_key ((eq_iff s.skill_key skill.skill_key).0 same) in
          cc
      | inr other ↦ other
    ]

-- A skill that is missing from the first rows stands among the ones that are made.
missing-made :
    (existing : List Value) (skills : List PackSkill) (skill : PackSkill)
    → installed existing skill ≡ false
    → any (λ s. s.skill_key == skill.skill_key) skills ≡ true
    → any (λ s. s.skill_key == skill.skill_key) (missing existing skills) ≡ true
unfolding missing
missing-made existing [] skill new h = cc
missing-made existing (s ∷ rest) skill new h = elim (Bool-cases (installed existing s)) [
  | inl old ↦
      rw old (
        missing-made existing rest skill new
          (or_other _ _ h (key_differs existing s skill old new)))
  | inr fresh ↦ rw fresh (ground (arith, missing-made existing rest skill new))
]

-- Where every skill is installed, none is missing.
missing-nil :
    (existing : List Value) (skills : List PackSkill)
    → All (λ skill. installed existing skill ≡ true) skills
    → missing existing skills ≡ []
unfolding missing
missing-nil existing [] h = refl
missing-nil existing (s ∷ rest) h = rw h.0 (missing-nil existing rest h.1)

installed-after :
    (row : PackSkill → Value) (existing : List Value) (skills part : List PackSkill)
    → ((s : PackSkill) → prop "skill_key" (row s) ≡ str s.skill_key)
    → All (λ skill. any (λ s. s.skill_key == skill.skill_key) skills ≡ true) part
    → All (λ skill. installed (map row (missing existing skills) ++ existing) skill ≡ true) part
installed-after row existing skills [] h p = tt
installed-after row existing skills (s ∷ part) h p = (
  elim (Bool-cases (installed existing s)) [
    | inl old ↦ rw (any-append, old) (or_true _)
    | inr fresh ↦ rw (
      any-append,
      any-rows row s (missing existing skills) h,
      missing-made existing skills s fresh p.0,
    )
  ],
  installed-after row existing skills part h p.1,
)

weaken_listed :
    (x : PackSkill) (skills part : List PackSkill)
    → All (λ skill. any (λ s. s.skill_key == skill.skill_key) skills ≡ true) part
    → All (λ skill. any (λ s. s.skill_key == skill.skill_key) (x ∷ skills) ≡ true) part
weaken_listed x skills [] h = tt
weaken_listed x skills (s ∷ part) h = (rw h.0 (or_true _), weaken_listed x skills part h.1)

self_listed :
    (skills : List PackSkill)
    → All (λ skill. any (λ s. s.skill_key == skill.skill_key) skills ≡ true) skills
self_listed [] = tt
self_listed (s ∷ rest) = (rw eq_refl, weaken_listed s rest rest (self_listed rest))

-- A pack is installed once: no key is created that exists already; and once the created skills are
-- among the rows, each under its key, nothing of the pack is left to create.
pub to_create-once :
    (pack : Pack) (existing : List Value) (row : PackSkill → Value)
    → ((s : PackSkill) → prop "skill_key" (row s) ≡ str s.skill_key)
    → All (λ skill. installed existing skill ≡ false) (to_create pack existing)
      × (to_create pack (map row (to_create pack existing) ++ existing) ≡ [])
unfolding to_create missing
to_create-once pack existing row h = (
  missing-All existing pack.skills,
  missing-nil _ pack.skills
      (installed-after row existing pack.skills pack.skills h (self_listed pack.skills)),
)
