-- ===== src/Base/Bits.antt =====
-- `&` and `|` at variables: one digit at a time, and the laws that masks need.
use Prim.Native.Nat.{
  ℕ, zero, suc, ◌+◌, ◌*◌, ◌/◌, ◌%◌, ◌-◌, ◌^◌, ◌≤◌, ◌<◌, min, max, bit_and, bit_or, digits,
  bit_and-bitwise, bit_or-bitwise,
}
use mathlib.Core.Path.{◌≡◌, refl}
use native.Mathlib.Nat.{pow-suc, one-le-pow}
use native.Mathlib.Omega.{arith}

-- Both operations go over the digits of their first argument: any fuel that it does not exceed
-- gives the same.
module _ (stop : ℕ → ℕ) (op : ℕ → ℕ → ℕ) where
  digits_same :
      (fuel more x y : ℕ) → x ≤ fuel → x ≤ more → digits stop op fuel x y ≡ digits stop op more x y
  digits_same zero zero zero y h k = refl
  digits_same zero (suc more) zero y h k = refl
  digits_same (suc fuel) zero zero y h k = refl
  digits_same (suc fuel) (suc more) zero y h k = refl
  digits_same zero more (suc x) y h k = absurd (omega arith)
  digits_same (suc fuel) zero (suc x) y h k = absurd (omega arith)
  digits_same (suc fuel) (suc more) (suc x) y h k =
      let ih = digits_same fuel more (suc x / 2) (y / 2) (omega arith) (omega arith) in
      omega (arith, ih)

  -- The last digit, and the digits before it.
  digits_step :
      (x y : ℕ)
      → digits stop op (suc x) (suc x) y
        ≡ digits stop op (suc x / 2) (suc x / 2) (y / 2) * 2 + op (suc x % 2) (y % 2)
  digits_step x y =
      omega (arith, digits_same x (suc x / 2) (suc x / 2) (y / 2) (omega arith) (omega arith))

bit_and_zero : (y : ℕ) → bit_and 0 y ≡ 0
bit_and_zero y = bit_and-bitwise 0 y

pub bit_and_last : (x y : ℕ) → bit_and x y ≡ min (x % 2) (y % 2) + 2 * bit_and (x / 2) (y / 2)
bit_and_last zero y = omega (arith, bit_and_zero y, bit_and_zero (y / 2))
bit_and_last (suc x) y =
    let half = bit_and-bitwise (suc x / 2) (y / 2) in
    omega (arith, half, bit_and-bitwise (suc x) y, digits_step (λ _. zero) min x y)

-- Induction over the digits of one number, with fuel above it.
and_comm_fuel : (n a b : ℕ) → a ≤ n → b ≤ n → bit_and a b ≡ bit_and b a
and_comm_fuel zero zero zero p q = refl
and_comm_fuel zero zero (suc b) p q = absurd (omega arith)
and_comm_fuel zero (suc a) b p q = absurd (omega arith)
and_comm_fuel (suc n) a b p q = omega (
  arith,
  bit_and_last a b,
  bit_and_last b a,
  and_comm_fuel n (a / 2) (b / 2) (omega arith) (omega arith),
)

pub bit_and_comm : (a b : ℕ) → bit_and a b ≡ bit_and b a
bit_and_comm a b = and_comm_fuel (a + b) a b (omega arith) (omega arith)

pub bit_and_half : (a b : ℕ) → bit_and a b / 2 ≡ bit_and (a / 2) (b / 2)
bit_and_half a b = omega (arith, bit_and_last a b)

pub bit_and_low : (a b : ℕ) → bit_and a b % 2 ≡ min (a % 2) (b % 2)
bit_and_low a b = omega (arith, bit_and_last a b)

and_assoc_fuel : (n a b c : ℕ) → a ≤ n → bit_and (bit_and a b) c ≡ bit_and a (bit_and b c)
and_assoc_fuel zero zero b c p = cc (bit_and_zero b, bit_and_zero c, bit_and_zero (bit_and b c))
and_assoc_fuel zero (suc a) b c p = absurd (omega arith)
and_assoc_fuel (suc n) a b c p = ground (
  arith,
  bit_and_last (bit_and a b) c,
  bit_and_last a (bit_and b c),
  bit_and_half a b,
  bit_and_half b c,
  bit_and_low a b,
  bit_and_low b c,
  and_assoc_fuel n (a / 2) (b / 2) (c / 2) (omega arith),
)

pub bit_and_assoc : (a b c : ℕ) → bit_and (bit_and a b) c ≡ bit_and a (bit_and b c)
bit_and_assoc a b c = and_assoc_fuel a a b c (omega arith)

and_idem_fuel : (n a : ℕ) → a ≤ n → bit_and a a ≡ a
and_idem_fuel zero zero p = refl
and_idem_fuel zero (suc a) p = absurd (omega arith)
and_idem_fuel (suc n) a p = omega (arith, bit_and_last a a, and_idem_fuel n (a / 2) (omega arith))

pub bit_and_idem : (a : ℕ) → bit_and a a ≡ a
bit_and_idem a = and_idem_fuel a a (omega arith)

and_le_fuel : (n a b : ℕ) → b ≤ n → bit_and a b ≤ b
and_le_fuel zero a zero p = omega (arith, bit_and_comm a 0, bit_and_zero a)
and_le_fuel zero a (suc b) p = absurd (omega arith)
and_le_fuel (suc n) a b p =
    omega (arith, bit_and_last a b, and_le_fuel n (a / 2) (b / 2) (omega arith))

pub bit_and-le : (a b : ℕ) → bit_and a b ≤ b
bit_and-le a b = and_le_fuel b a b (omega arith)

bit_or_zero : (y : ℕ) → bit_or 0 y ≡ y
bit_or_zero y = bit_or-bitwise 0 y

pub bit_or_last : (x y : ℕ) → bit_or x y ≡ max (x % 2) (y % 2) + 2 * bit_or (x / 2) (y / 2)
bit_or_last zero y = omega (arith, bit_or_zero y, bit_or_zero (y / 2))
bit_or_last (suc x) y =
    let half = bit_or-bitwise (suc x / 2) (y / 2) in
    omega (arith, half, bit_or-bitwise (suc x) y, digits_step (λ z. z) max x y)

-- With `w` digits `^m` is `2 ^ w - 1 - m`, and `a | ^m` is `a & m` and `^m` side by side.
pub bit_or_complement :
    (w a m : ℕ) → a < 2 ^ w → m < 2 ^ w → bit_or a (2 ^ w - 1 - m) ≡ bit_and a m + (2 ^ w - 1 - m)
bit_or_complement zero zero zero p q = refl
bit_or_complement zero zero (suc m) p q = absurd (omega arith)
bit_or_complement zero (suc a) m p q = absurd (omega arith)
bit_or_complement (suc w) a m p q =
    let c : ℕ = 2 ^ suc w - 1 - m in
    let half : c / 2 ≡ 2 ^ w - 1 - m / 2 = omega (arith, pow-suc 2 w, one-le-pow w 2) in
    let low : c % 2 ≡ 1 - m % 2 = omega (arith, pow-suc 2 w, one-le-pow w 2) in
    let ih : bit_or (a / 2) (c / 2) ≡ bit_and (a / 2) (m / 2) + c / 2 = rw half (
      bit_or_complement w (a / 2) (m / 2) (omega (arith, pow-suc 2 w))
        (omega (arith, pow-suc 2 w))) in
    omega (arith, bit_or_last a c, bit_and_last a m, ih, low)

pub bit_or_byte_complement :
    (a m : ℕ) → a < 256 → m < 256 → bit_or a (255 - m) ≡ bit_and a m + (255 - m)
bit_or_byte_complement = bit_or_complement 8
