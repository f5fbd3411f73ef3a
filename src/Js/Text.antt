-- ===== src/Js/Text.antt =====
-- Texts: `trim`, `replace(/\/+$/, '')`, `split('\n')` and `join('\n')`.
use webhook_listener.Prelude.{
  ◌≡◌, refl, ap, Bool, false, ◌||◌, ◌&&◌, List, [], ◌∷◌, String, Char, code, leb, nat_eq,
  if◌then◌else◌, Bool-cases, inl, inr,
}
use webhook_listener.Js.Value.{◌⧺◌}

-- The characters that `trim` takes off.
abbrev pub is_space : Char → Bool
is_space c =
    let n = code c in
    leb 9 n && leb n 13
    || nat_eq n 32
    || nat_eq n 160
    || nat_eq n 5760
    || leb 8192 n && leb n 8202
    || nat_eq n 8232
    || nat_eq n 8233
    || nat_eq n 8239
    || nat_eq n 8287
    || nat_eq n 12288
    || nat_eq n 65279

abbrev pub is_slash : Char → Bool
is_slash c = nat_eq (code c) b'/'

abbrev pub is_newline : Char → Bool
is_newline c = nat_eq (code c) 10

unfoldable pub drop_start : (Char → Bool) → String → String
drop_start p String.[] = String.[]
drop_start p (String.◌∷◌ c s) = let rest = drop_start p s in if p c then rest else String.◌∷◌ c s

abbrev pub keep_char : (Char → Bool) → Char → String → String
keep_char p c String.[] = if p c then String.[] else String.◌∷◌ c String.[]
keep_char p c (String.◌∷◌ d s) = String.◌∷◌ c (String.◌∷◌ d s)

unfoldable pub drop_end : (Char → Bool) → String → String
drop_end p String.[] = String.[]
drop_end p (String.◌∷◌ c s) = keep_char p c (drop_end p s)

-- s.trim()
unfoldable pub trim : String → String
unfolding drop_start drop_end
trim s = drop_end is_space (drop_start is_space s)

-- s.replace(/\/+$/, '')
unfoldable pub strip_slashes : String → String
unfolding drop_end
strip_slashes s = drop_end is_slash s

abbrev pub ends_in : (Char → Bool) → String → Bool
ends_in p String.[] = false
ends_in p (String.◌∷◌ c String.[]) = p c
ends_in p (String.◌∷◌ c (String.◌∷◌ d s)) = ends_in p (String.◌∷◌ d s)

abbrev pub has_char : (Char → Bool) → String → Bool
has_char p String.[] = false
has_char p (String.◌∷◌ c s) = p c || has_char p s

abbrev pub first_line : Char → List String → List String
first_line c [] = String.◌∷◌ c String.[] ∷ []
first_line c (l ∷ ls) = String.◌∷◌ c l ∷ ls

-- s.split('\n')
unfoldable pub split_lines : String → List String
split_lines String.[] = String.[] ∷ []
split_lines (String.◌∷◌ c s) =
    let rest = split_lines s in if is_newline c then String.[] ∷ rest else first_line c rest

-- ls.join('\n')
unfoldable pub join_lines : List String → String
join_lines [] = ""
join_lines (l ∷ []) = l
join_lines (l ∷ k ∷ ls) = l ⧺ String.◌∷◌ "\n" (join_lines (k ∷ ls))

ends_in-keep_char :
    (p : Char → Bool) (c : Char) (s : String)
    → ends_in p s ≡ false
    → ends_in p (keep_char p c s) ≡ false
ends_in-keep_char p c String.[] h = elim (Bool-cases (p c)) [ inl e ↦ rw e refl | inr e ↦ rw e e ]
ends_in-keep_char p c (String.◌∷◌ d s) h = h

pub ends_in-drop_end : (p : Char → Bool) (s : String) → ends_in p (drop_end p s) ≡ false
unfolding drop_end
ends_in-drop_end p String.[] = refl
ends_in-drop_end p (String.◌∷◌ c s) = ends_in-keep_char p c (drop_end p s) (ends_in-drop_end p s)

pub drop_end_of_not-ends_in :
    (p : Char → Bool) (s : String) → ends_in p s ≡ false → drop_end p s ≡ s
unfolding drop_end
drop_end_of_not-ends_in p String.[] h = refl
drop_end_of_not-ends_in p (String.◌∷◌ c String.[]) h = rw h
drop_end_of_not-ends_in p (String.◌∷◌ c (String.◌∷◌ d s)) h =
    ap (keep_char p c) (drop_end_of_not-ends_in p (String.◌∷◌ d s) h)

pub drop_end_idem : (p : Char → Bool) (s : String) → drop_end p (drop_end p s) ≡ drop_end p s
drop_end_idem p s = drop_end_of_not-ends_in p (drop_end p s) (ends_in-drop_end p s)
