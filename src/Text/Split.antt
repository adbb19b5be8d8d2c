-- ===== src/Text/Split.antt =====
-- `strings.Split`, `strings.SplitN` with two parts, `strings.Contains` and `strings.Join`, for a
-- separator of one byte.
use docker_stuff.Base.{
  ℕ, ◌==◌, ◌≡◌, ◌≢◌, refl, Bool, true, false, ◌||◌, ◌&&◌, ◌↔◌, List, [], ◌∷◌, ◌++◌, Option, none,
  some, arith, if◌then◌else◌, Bytes, All,
}

abbrev pub Lacks : ℕ → Bytes → Type 0
Lacks b = All (λ c. c ≢ b)

unfoldable pub contains_byte : ℕ → Bytes → Bool
contains_byte b [] = false
contains_byte b (c ∷ s) = c == b || contains_byte b s

-- `==` on strings
unfoldable pub eq_bytes : Bytes → Bytes → Bool
eq_bytes [] [] = true
eq_bytes [] (b ∷ t) = false
eq_bytes (a ∷ s) [] = false
eq_bytes (a ∷ s) (b ∷ t) = a == b && eq_bytes s t

-- A text in a list
unfoldable pub has_text : Bytes → List Bytes → Bool
has_text k [] = false
has_text k (s ∷ texts) = eq_bytes s k || has_text k texts

pub eq_bytes_iff : (s t : Bytes) → (eq_bytes s t ≡ true) ↔ (s ≡ t)
unfolding eq_bytes
eq_bytes_iff [] [] = ground arith
eq_bytes_iff [] (b ∷ t) = ground arith
eq_bytes_iff (a ∷ s) [] = ground arith
eq_bytes_iff (a ∷ s) (b ∷ t) = ground (arith, eq_bytes_iff s t)

-- Put a byte in front of the first part.
unfoldable pub onto_first : ℕ → List Bytes → List Bytes
onto_first c [] = (c ∷ []) ∷ []
onto_first c (p ∷ ps) = (c ∷ p) ∷ ps

-- There is always one part at least.
unfoldable pub split : ℕ → Bytes → List Bytes
unfolding onto_first
split b [] = [] ∷ []
split b (c ∷ s) = let rest = split b s in if c == b then [] ∷ rest else onto_first c rest

-- `SplitN(s, sep, 2)`: the text before the first separator, and the text after it if there is one.
unfoldable pub cut : ℕ → Bytes → Bytes × Option Bytes
cut b [] = ([], none)
cut b (c ∷ s) =
    let (before, after) = cut b s in if c == b then ([], some s) else (c ∷ before, after)

-- `strings.Join(parts, "")`
unfoldable pub concat : List Bytes → Bytes
concat [] = []
concat (p ∷ ps) = p ++ concat ps

pub cut_at : (b : ℕ) (s t : Bytes) → Lacks b s → cut b (s ++ b ∷ t) ≡ (s, some t)
unfolding cut
cut_at b [] t h = ground arith
cut_at b (c ∷ s) t h = ground (arith, cut_at b s t)

pub split_lacking : (b : ℕ) (s : Bytes) → Lacks b s → split b s ≡ s ∷ []
unfolding split
split_lacking b [] h = refl
split_lacking b (c ∷ s) h = ground (arith, split_lacking b s)

pub split_at : (b : ℕ) (s t : Bytes) → Lacks b s → split b (s ++ b ∷ t) ≡ s ∷ split b t
unfolding split
split_at b [] t h = ground arith
split_at b (c ∷ s) t h = ground (arith, split_at b s t)

pub contains_lacking : (b : ℕ) (s : Bytes) → Lacks b s → contains_byte b s ≡ false
unfolding contains_byte
contains_lacking b [] h = refl
contains_lacking b (c ∷ s) h = ground (arith, contains_lacking b s)

pub contains_at : (b : ℕ) (s t : Bytes) → contains_byte b (s ++ b ∷ t) ≡ true
unfolding contains_byte
contains_at b [] t = ground arith
contains_at b (c ∷ s) t = ground (arith, contains_at b s t)
