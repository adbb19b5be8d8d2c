-- ===== src/Text/Decimal.antt =====
-- `strconv.Itoa` and the verb `%d` on numbers that are not negative, and `strconv.ParseUint(s, 10, w)`.
use docker_stuff.Base.{
  ℕ, zero, suc, ◌+◌, ◌-◌, ◌*◌, ◌/◌, ◌%◌, ◌^◌, ◌≤◌, ◌<◌, ◌≡◌, ◌≢◌, refl, ap, ◌∙◌, Bool, true, ◌&&◌,
  [], ◌∷◌, ◌++◌, Option, none, some, arith, ltb, leb, if◌then◌else◌, Bytes, All, All-append,
  Bool-cases, inl, inr,
}
use mathlib.Core.List.{concat-ne-nil}

unfoldable pub is_digit : ℕ → Bool
is_digit c = leb b'0' c && leb c b'9'

abbrev pub IsDigit : ℕ → Type 0
IsDigit c = (b'0' ≤ c) × (c ≤ b'9')

-- One digit a round; `n` rounds are enough for `n`.
unfoldable pub digits : ℕ → ℕ → Bytes
digits zero n = (b'0' + n % 10) ∷ []
digits (suc fuel) n =
    let more = digits fuel (n / 10) ++ (b'0' + n % 10) ∷ [] in
    if ltb n 10 then (b'0' + n) ∷ [] else more

unfoldable pub itoa : ℕ → Bytes
unfolding digits
itoa n = digits n n

-- The number that digits spell after those that spell `n`.
unfoldable pub value_from : ℕ → Bytes → ℕ
value_from n [] = n
value_from n (c ∷ s) = value_from (n * 10 + (c - b'0')) s

unfoldable pub all_digits : Bytes → Bool
all_digits [] = true
all_digits (c ∷ s) = is_digit c && all_digits s

-- An error for an empty text, a byte that is no digit, and a number past `w` bits.
unfoldable pub parse_uint : ℕ → Bytes → Option ℕ
parse_uint w [] = none
parse_uint w (c ∷ s) =
    if all_digits (c ∷ s) && ltb (value_from 0 (c ∷ s)) (2 ^ w)
    then some (value_from 0 (c ∷ s))
    else none

value_from-append : (n : ℕ) (s t : Bytes) → value_from n (s ++ t) ≡ value_from (value_from n s) t
unfolding value_from
value_from-append n [] t = refl
value_from-append n (c ∷ s) t = value_from-append (n * 10 + (c - b'0')) s t

value_from_digit : (n d : ℕ) → value_from n ((b'0' + d) ∷ []) ≡ n * 10 + d
unfolding value_from
value_from_digit n d = omega arith

value_from-digits : (fuel n : ℕ) → n ≤ fuel → value_from 0 (digits fuel n) ≡ n
unfolding digits
value_from-digits zero n h = omega (arith, value_from_digit 0 (n % 10))
value_from-digits (suc fuel) n h = elim (Bool-cases (ltb n 10)) [
  | inl small ↦ rw small (omega (arith, value_from_digit 0 n))
  | inr large ↦
      rw (large, value_from-append 0 (digits fuel (n / 10)) ((b'0' + n % 10) ∷ []))
        (rw (value_from-digits fuel (n / 10) (ground arith))
          (omega (arith, value_from_digit (n / 10) (n % 10))))
]

pub value_from-itoa : (n : ℕ) → value_from 0 (itoa n) ≡ n
unfolding itoa
value_from-itoa n = value_from-digits n n (omega arith)

digits-IsDigit : (fuel n : ℕ) → All IsDigit (digits fuel n)
unfolding digits
digits-IsDigit zero n = omega arith
digits-IsDigit (suc fuel) n = elim (Bool-cases (ltb n 10)) [
  | inl small ↦ rw small (ground arith)
  | inr large ↦
      rw large
        (All-append IsDigit (digits fuel (n / 10)) _ (omega arith) (digits-IsDigit fuel (n / 10)))
]

pub itoa-IsDigit : (n : ℕ) → All IsDigit (itoa n)
unfolding itoa
itoa-IsDigit n = digits-IsDigit n n

digits-ne-nil : (fuel n : ℕ) → digits fuel n ≢ []
unfolding digits
digits-ne-nil zero n = cc
digits-ne-nil (suc fuel) n = ground (arith, concat-ne-nil (b'0' + n % 10) (digits fuel (n / 10)))

pub itoa-ne-nil : (n : ℕ) → itoa n ≢ []
unfolding itoa
itoa-ne-nil n = digits-ne-nil n n

all_digits_complete : (s : Bytes) → All IsDigit s → all_digits s ≡ true
unfolding all_digits is_digit
all_digits_complete [] h = refl
all_digits_complete (c ∷ s) h = ground (arith, all_digits_complete s)

parse_digits :
    (w : ℕ) (s : Bytes)
    → s ≢ []
    → All IsDigit s
    → value_from 0 s < 2 ^ w
    → parse_uint w s ≡ some (value_from 0 s)
unfolding parse_uint
parse_digits w [] h d lt = absurd (h refl)
parse_digits w (c ∷ s) h d lt = rw (all_digits_complete (c ∷ s) d) (ground arith)

-- A number that fits is read back from its print.
pub parse_uint-itoa : (w n : ℕ) → n < 2 ^ w → parse_uint w (itoa n) ≡ some n
parse_uint-itoa w n lt =
    parse_digits w (itoa n) (itoa-ne-nil n) (itoa-IsDigit n) (rw value_from-itoa lt)
    ∙ ap (λ (t : ℕ). some t) (value_from-itoa n)

-- What is read fits.
pub parse_uint-lt : (w : ℕ) (s : Bytes) (n : ℕ) → parse_uint w s ≡ some n → n < 2 ^ w
unfolding parse_uint
parse_uint-lt w [] n h = cc
parse_uint-lt w (c ∷ s) n h = ground arith

-- A text of digits has no other byte.
pub digits-Lacks : (b : ℕ) → ¬ IsDigit b → (s : Bytes) → All IsDigit s → All (λ c. c ≢ b) s
digits-Lacks b not_digit [] h = tt
digits-Lacks b not_digit (c ∷ s) h = (λ e. not_digit (rw e at h.0), digits-Lacks b not_digit s h.1)
