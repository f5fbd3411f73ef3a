-- ===== src/Card/Lines.antt =====
-- web/src/components/StoryboardCard.jsx: the cutting of a text to a number of lines.
use text.Mathlib.TextLemmas.{nil-append, cons-append, append_assoc}
use webhook_listener.Prelude.{
  ℕ, zero, suc, ◌≤◌, ◌≡◌, refl, false, String, ◌==◌, Char, List, [], ◌∷◌, ◌++◌, length, take, leb,
  All, arith, eq_iff, if◌then◌else◌, Bool-cases, inl, inr,
}
use webhook_listener.Js.Value.{◌⧺◌}
use webhook_listener.Js.Text.{split_lines, first_line, join_lines, has_char, is_newline}
use webhook_listener.Card.{truncate_lines}

abbrev pub IsLine : String → Type 0
IsLine l = has_char is_newline l ≡ false

split_lines-cons :
    (c : Char) (s : String)
    → is_newline c ≡ false
    → split_lines (String.◌∷◌ c s) ≡ first_line c (split_lines s)
unfolding split_lines
split_lines-cons c s e = rw e refl

split_lines-newline : (s : String) → split_lines (String.◌∷◌ "\n" s) ≡ "" ∷ split_lines s
unfolding split_lines
split_lines-newline s = refl

head_of_IsLine : (c : Char) (l : String) → IsLine (String.◌∷◌ c l) → is_newline c ≡ false
head_of_IsLine c l h = ground arith

tail_of_IsLine : (c : Char) (l : String) → IsLine (String.◌∷◌ c l) → IsLine l
tail_of_IsLine c l h = ground arith

-- A line before a newline is split off whole.
split_lines-line :
    (l s : String) → IsLine l → split_lines (l ⧺ String.◌∷◌ "\n" s) ≡ l ∷ split_lines s
split_lines-line String.[] s h = rw nil-append (split_lines-newline s)
split_lines-line (String.◌∷◌ c l) s h = rw (
  cons-append,
  split_lines-cons c (l ⧺ String.◌∷◌ "\n" s) (head_of_IsLine c l h),
  split_lines-line l s (tail_of_IsLine c l h),
)

split_lines-last : (l : String) → IsLine l → split_lines l ≡ l ∷ []
unfolding split_lines
split_lines-last String.[] h = refl
split_lines-last (String.◌∷◌ c l) h =
    rw (split_lines-cons c l (head_of_IsLine c l h), split_lines-last l (tail_of_IsLine c l h))

first_line-All :
    (c : Char) (ls : List String)
    → is_newline c ≡ false
    → All IsLine ls
    → All IsLine (first_line c ls)
first_line-All c [] e h = (rw e, tt)
first_line-All c (l ∷ ls) e h = (rw (e, h.0), h.1)

split_lines-All : (s : String) → All IsLine (split_lines s)
unfolding split_lines
split_lines-All String.[] = (refl, tt)
split_lines-All (String.◌∷◌ c s) = elim (Bool-cases (is_newline c)) [
  | inl e ↦ rw e (refl, split_lines-All s)
  | inr e ↦ rw e (first_line-All c (split_lines s) e (split_lines-All s))
]

-- Lines that are joined and followed by one more line split into just these lines.
split-join :
    (l : String) (ls : List String) (last : String)
    → All IsLine (l ∷ ls)
    → IsLine last
    → split_lines (join_lines (l ∷ ls) ⧺ String.◌∷◌ "\n" last) ≡ (l ∷ ls) ++ last ∷ []
unfolding join_lines
split-join l [] last h k = rw (split_lines-line l last h.0, split_lines-last last k)
split-join l (m ∷ ls) last h k = rw (
  append_assoc,
  cons-append,
  split_lines-line l (join_lines (m ∷ ls) ⧺ String.◌∷◌ "\n" last) h.0,
  split-join m ls last h.1 k,
)

take-All : (n : ℕ) (ls : List String) → All IsLine ls → All IsLine (take n ls)
take-All zero ls h = tt
take-All (suc n) [] h = tt
take-All (suc n) (l ∷ ls) h = (h.0, take-All n ls h.1)

-- What is left after the first lines of a text and the mark are joined again.
split-cut :
    (n : ℕ) (ls : List String)
    → All IsLine ls
    → 1 ≤ length ls
    → split_lines (join_lines (take (suc n) ls) ⧺ String.◌∷◌ "\n" "...")
      ≡ take (suc n) ls ++ "..." ∷ []
split-cut n [] h k = ground arith
split-cut n (l ∷ ls) h k = split-join l (take n ls) "..." (h.0, take-All n ls h.1) refl

first_line-length : (c : Char) (ls : List String) → 1 ≤ length (first_line c ls)
first_line-length c [] = omega arith
first_line-length c (l ∷ ls) = omega arith

split_lines-length : (s : String) → 1 ≤ length (split_lines s)
unfolding split_lines
split_lines-length String.[] = omega arith
split_lines-length (String.◌∷◌ c s) = elim (Bool-cases (is_newline c)) [
  | inl e ↦ rw e (omega arith)
  | inr e ↦ rw e (first_line-length c (split_lines s))
]

-- Cut to a positive number of lines, a text of at most that many lines keeps its lines, and a
-- longer one has just its first that many lines, followed by a line of three dots.
pub split_lines-truncate_lines :
    (max : ℕ) (text : String)
    → 1 ≤ max
    → split_lines (truncate_lines max text).text ≡ (
        if leb (length (split_lines text)) max
        then split_lines text
        else take max (split_lines text) ++ "..." ∷ [])
unfolding truncate_lines
split_lines-truncate_lines zero text h = ground arith
split_lines-truncate_lines (suc n) text h = elim (Bool-cases (text == "")) [
  | inl e ↦ rw (e, (eq_iff text "").0 e, split_lines-last "" refl) (ground arith)
  | inr e ↦ elim (Bool-cases (leb (length (split_lines text)) (suc n))) [
    | inl f ↦ rw (e, f)
    | inr f ↦
        rw (e, f) (split-cut n (split_lines text) (split_lines-All text) (split_lines-length text))
  ]
]
