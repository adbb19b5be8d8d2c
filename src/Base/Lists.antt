-- ===== src/Base/Lists.antt =====
-- Lists measured and cut by native numbers, sets of numbers as lists, and predicates on lists.
use Prim.Native.Nat.{ℕ, zero, suc, ◌+◌}
use mathlib.Core.Path.{◌≡◌, refl, ap}
use mathlib.Core.Bool.{Bool, true, false, ◌||◌}
use mathlib.Core.List.{List, [], ◌∷◌, ◌++◌}
use mathlib.Core.Option.{Option, none, some}
use native.Mathlib.Omega.{arith}
use docker_stuff.Base.Tests.{◌==◌, if◌then◌else◌}

module _ {ℓ} {A : Type ℓ} where
  abbrev pub length : List A → ℕ
  length [] = 0
  length (x ∷ xs) = suc (length xs)

  abbrev pub get_elem? : List A → ℕ → Option A
  get_elem? [] i = none
  get_elem? (x ∷ xs) zero = some x
  get_elem? (x ∷ xs) (suc i) = get_elem? xs i

  abbrev pub take : ℕ → List A → List A
  take zero xs = []
  take (suc n) [] = []
  take (suc n) (x ∷ xs) = x ∷ take n xs

  abbrev pub drop : ℕ → List A → List A
  drop zero xs = xs
  drop (suc n) [] = []
  drop (suc n) (x ∷ xs) = drop n xs

  pub length-append : (xs ys : List A) → length (xs ++ ys) ≡ length xs + length ys
  length-append [] ys = omega arith
  length-append (x ∷ xs) ys = omega (arith, length-append xs ys)

  pub take-append : (xs ys : List A) → take (length xs) (xs ++ ys) ≡ xs
  take-append [] ys = refl
  take-append (x ∷ xs) ys = ap (λ l. x ∷ l) (take-append xs ys)

  pub drop-append : (xs ys : List A) → drop (length xs) (xs ++ ys) ≡ ys
  drop-append [] ys = refl
  drop-append (x ∷ xs) ys = drop-append xs ys

abbrev pub All {ℓ κ} : {A : Type ℓ} → (A → Type κ) → List A → Type κ
All P [] = Unit
All P (x ∷ xs) = P x × All P xs

pub All-append {ℓ κ} :
    {A : Type ℓ} (Q : A → Type κ) (front back : List A)
    → All Q back
    → All Q front
    → All Q (front ++ back)
All-append Q [] back b f = b
All-append Q (v ∷ front) back b (q, f) = (q, All-append Q front back b f)

-- Go's `map[int]struct{}` as a list of its keys.
unfoldable pub contains : List ℕ → ℕ → Bool
contains [] a = false
contains (x ∷ xs) a = x == a || contains xs a

unfoldable pub remove : List ℕ → ℕ → List ℕ
remove [] a = []
remove (x ∷ xs) a = let rest = remove xs a in if x == a then rest else x ∷ rest

pub contains-remove :
    (xs : List ℕ) (a b : ℕ) → contains (remove xs a) b ≡ (if a == b then false else contains xs b)
unfolding contains remove
contains-remove [] a b = ground arith
contains-remove (x ∷ xs) a b = ground (arith, contains-remove xs a b)

pub contains-cons : (xs : List ℕ) (a b : ℕ) → contains (a ∷ xs) b ≡ (a == b || contains xs b)
unfolding contains
contains-cons xs a b = refl

-- Inserting a key that is there keeps one copy.
unfoldable pub insert : List ℕ → ℕ → List ℕ
unfolding contains
insert xs a = if contains xs a then xs else a ∷ xs

pub contains-insert : (xs : List ℕ) (a b : ℕ) → contains (insert xs a) b ≡ (a == b || contains xs b)
unfolding insert
contains-insert xs a b = ground arith

-- Every number from `lo` on, `n` of them, is a key.
abbrev pub AllIn : List ℕ → ℕ → ℕ → Type 0
AllIn xs lo zero = Unit
AllIn xs lo (suc n) = (contains xs lo ≡ true) × AllIn xs (lo + 1) n
