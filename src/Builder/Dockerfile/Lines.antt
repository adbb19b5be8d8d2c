-- ===== src/Builder/Dockerfile/Lines.antt =====
-- The instruction of a line is never empty.
use docker_stuff.Base.{
  ℕ, ◌==◌, ◌≡◌, ◌≢◌, true, false, List, [], ◌∷◌, Option, none, some, Bytes, codes, All, Bool-cases,
  inl, inr, arith,
}
use docker_stuff.Text.Split.{cut}
use docker_stuff.Text.Trim.{in_set, trim_left, trim_right, trim, to_lower}
use docker_stuff.Builder.Dockerfile.{
  Line, skipped, invalid, step, tabs_to_spaces, step_of, parse_trimmed, parse_line, parse_lines,
}

-- A text that is empty, or does not start with a byte of the set.
abbrev StartsOutside : Bytes → Bytes → Type 0
StartsOutside set [] = Unit {0}
StartsOutside set (c ∷ s) = in_set set c ≡ false

trim_left-StartsOutside : (set s : Bytes) → StartsOutside set (trim_left set s)
unfolding trim_left
trim_left-StartsOutside set [] = tt
trim_left-StartsOutside set (c ∷ s) = elim (Bool-cases (in_set set c)) [
  | inl within ↦ rw (within, trim_left) (trim_left-StartsOutside set s)
  | inr without ↦ rw (without, trim_left) without
]

trim_right_cons :
    (set : Bytes) (c : ℕ) (s : Bytes)
    → in_set set c ≡ false
    → trim_right set (c ∷ s) ≡ c ∷ trim_right set s
unfolding trim_right
trim_right_cons set c s without = ground arith

trim_right-StartsOutside :
    (set s : Bytes) → StartsOutside set s → StartsOutside set (trim_right set s)
unfolding trim_right
trim_right-StartsOutside set [] h = tt
trim_right-StartsOutside set (c ∷ s) h = rw (trim_right_cons set c s h) h

trim-StartsOutside : (set s : Bytes) → StartsOutside set (trim set s)
unfolding trim
trim-StartsOutside set s =
    trim_right-StartsOutside set (trim_left set s) (trim_left-StartsOutside set s)

trim_cons :
    (set : Bytes) (c : ℕ) (s : Bytes)
    → in_set set c ≡ false
    → trim set (c ∷ s) ≡ c ∷ trim_right set s
unfolding trim trim_left
trim_cons set c s h = rw (h, trim_left) (trim_right_cons set c s h)

-- The instruction of a line, if the line has one, is not empty.
abbrev pub IsNamed : Line → Type 0
IsNamed skipped = Unit {0}
IsNamed invalid = Unit {0}
IsNamed (step instruction arguments) = instruction ≢ []

parts-IsNamed :
    (c : ℕ) (before : Bytes) (after : Option Bytes)
    → in_set (codes " ") c ≡ false
    → IsNamed (step_of (c ∷ before, after))
unfolding to_lower
parts-IsNamed c before none h = tt
parts-IsNamed c before (some right) h = rw (trim_cons (codes " ") c before h) (λ e. cc)

outside : (c : ℕ) → in_set (codes " \t\r\n") c ≡ false → c == b' ' ≡ true → ⊥
unfolding in_set
outside c h e = ground arith

blank : (c : ℕ) → in_set (codes " \t\r\n") c ≡ false → in_set (codes " ") c ≡ false
unfolding in_set
blank c h = ground arith

step_of-IsNamed :
    (c : ℕ) (line : Bytes)
    → in_set (codes " \t\r\n") c ≡ false
    → IsNamed (step_of (cut b' ' (c ∷ line)))
unfolding cut
step_of-IsNamed c line h = elim (Bool-cases (c == b' ')) [
  | inl space ↦ elim (outside c h space) [ ]
  | inr letter ↦ rw (letter) (parts-IsNamed c (cut b' ' line).0 (cut b' ' line).1 (blank c h))
]

parse_trimmed-IsNamed :
    (line : Bytes) → StartsOutside (codes " \t\r\n") line → IsNamed (parse_trimmed line)
parse_trimmed-IsNamed [] h = tt
parse_trimmed-IsNamed (c ∷ line) h = elim (Bool-cases (c == b'#')) [
  | inl hash ↦ rw hash tt
  | inr no_hash ↦ rw no_hash (step_of-IsNamed c line h)
]

pub parse_lines-IsNamed : (lines : List Bytes) → All IsNamed (parse_lines lines)
unfolding parse_lines parse_line
parse_lines-IsNamed [] = tt
parse_lines-IsNamed (line ∷ lines) = (
  parse_trimmed-IsNamed (trim (codes " \t\r\n") (tabs_to_spaces line))
      (trim-StartsOutside (codes " \t\r\n") (tabs_to_spaces line)),
  parse_lines-IsNamed lines,
)
