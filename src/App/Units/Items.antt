-- ===== src/App/Units/Items.antt =====
-- The names of the new units of a quota.
use docker_stuff.Base.{
  ℕ, zero, suc, ◌+◌, ◌%◌, ◌^◌, ◌≤◌, ◌<◌, ltb, ==_refl, ◌≡◌, ◌≢◌, refl, sym, ap, ◌∙◌, true, false,
  List, [], ◌∷◌, ◌++◌, some, Bytes, length, append_assoc, drop, drop-append, All, arith, Bool-cases,
  inl, inr,
}
use mathlib.Core.Path.{subst}
use docker_stuff.Text.Split.{eq_bytes, eq_bytes_iff, has_text}
use docker_stuff.Text.Trim.{has_prefix}
use docker_stuff.Text.Decimal.{
  is_digit, IsDigit, itoa, itoa-IsDigit, itoa-ne-nil, value_from, value_from-itoa,
}
use docker_stuff.App.{AppUnit, App}
use docker_stuff.App.Units.{
  leading_digits, is_empty, number_in, atoi, print_int, last_unit, initial_item, item, items_from,
  quota_items, generate_unit_quota_items,
}

leading_digits_all : (s : Bytes) → All IsDigit s → leading_digits s ≡ s
unfolding leading_digits is_digit
leading_digits_all [] h = refl
leading_digits_all (c ∷ s) h =
    let yes_c : is_digit c ≡ true = ground (arith, h.0) in
    rw yes_c (ap (λ (l : Bytes). c ∷ l) (leading_digits_all s h.1))

has_prefix-append : (s t : Bytes) → has_prefix s (s ++ t) ≡ true
unfolding has_prefix
has_prefix-append [] t = refl
has_prefix-append (c ∷ s) t = rw (==_refl c) (has_prefix-append s t)

itoa_some : (n : ℕ) → is_empty (itoa n) ≡ false
itoa_some n = full (itoa n) (itoa-ne-nil n)
  where
    full : (s : Bytes) → s ≢ [] → is_empty s ≡ false
    full [] ne = elim (ne refl) [ ]
    full (c ∷ s) ne = refl

-- The match at the start.
number_in_front :
    (c : ℕ) (front s : Bytes)
    → All IsDigit s
    → is_empty s ≡ false
    → number_in (c ∷ front) (c ∷ (front ++ s)) ≡ some s
unfolding number_in
number_in_front c front s digits full =
    let number : leading_digits (drop (length front) (front ++ s)) ≡ s =
      ap leading_digits (drop-append front s) ∙ leading_digits_all s digits in
    rw (has_prefix-append (c ∷ front) s, number, full) refl

-- The match in the item of a unit: the name of the app, a dash and the number.
number_in-item :
    (name : Bytes) (s : Bytes)
    → All IsDigit s
    → is_empty s ≡ false
    → number_in (name ++ b'-' ∷ []) ((name ++ b'-' ∷ []) ++ s) ≡ some s
number_in-item [] s digits full = number_in_front b'-' [] s digits full
number_in-item (c ∷ name) s digits full = number_in_front c (name ++ b'-' ∷ []) s digits full

print_int-item : (app : App) (n : ℕ) → n < 2 ^ 63 → item app n ≡ (app.name ++ b'-' ∷ []) ++ itoa n
unfolding item print_int
print_int-item app n lt =
    let small : ltb n (2 ^ 63) ≡ true = ground (arith, lt) in
    rw small (sym (append_assoc app.name (b'-' ∷ []) (itoa n)))

item_inj : (app : App) (a b : ℕ) → a < 2 ^ 63 → b < 2 ^ 63 → item app a ≡ item app b → a ≡ b
item_inj app a b small_a small_b e =
    let front = app.name ++ b'-' ∷ [] in
    let same : itoa a ≡ itoa b =
      sym (drop-append front (itoa a))
      ∙ ap (drop (length front))
          (sym (print_int-item app a small_a) ∙ e ∙ print_int-item app b small_b)
      ∙ drop-append front (itoa b) in
    sym (value_from-itoa a) ∙ ap (value_from 0) same ∙ value_from-itoa b

initial_item_lem :
    (app : App) (u : AppUnit) (m : ℕ)
    → last_unit app.units ≡ some u
    → u.quota_item ≡ item app m
    → suc m < 2 ^ 63
    → initial_item app ≡ suc m
unfolding initial_item atoi
initial_item_lem app u m last at small =
    let matched : number_in (app.name ++ b'-' ∷ []) u.quota_item ≡ some (itoa m) =
      ap (number_in (app.name ++ b'-' ∷ [])) (at ∙ print_int-item app m (omega (arith, small)))
      ∙ number_in-item app.name (itoa m) (itoa-IsDigit m) (itoa_some m) in
    rw (last, initial_item) (rw (matched) (rw (value_from-itoa m) (ground (arith, small))))

abbrev pub numbered : App → ℕ → ℕ → List Bytes
numbered app m zero = []
numbered app m (suc n) = item app m ∷ numbered app (suc m) n

items_from-numbered : (app : App) (m n : ℕ) → m + n < 2 ^ 63 → items_from app m n ≡ numbered app m n
unfolding items_from
items_from-numbered app m zero lt = refl
items_from-numbered app m (suc n) lt =
    let next : (m + 1) % 2 ^ 64 ≡ suc m = ground (arith, lt) in
    ap (λ (l : List Bytes). item app m ∷ l)
      (ap (λ (k : ℕ). items_from app k n) next
        ∙ items_from-numbered app (suc m) n (omega (arith, lt)))

-- Items of numbers that are no higher
abbrev pub Below : App → ℕ → List Bytes → Type 0
Below app m [] = Unit {0}
Below app m (t ∷ items) = ((k : ℕ) × (k ≤ m) × (t ≡ item app k)) × Below app m items

item_new :
    (app : App) (m j : ℕ) (items : List Bytes)
    → m < j
    → j < 2 ^ 63
    → Below app m items
    → has_text (item app j) items ≡ false
unfolding has_text
item_new app m j [] lt small below = refl
item_new app m j (t ∷ items) lt small ((k, le, at), below) =
    elim (Bool-cases (eq_bytes t (item app j))) [
      | inl same ↦
          let e =
            item_inj app k j (omega (arith, le, lt, small)) small
              (sym at ∙ (eq_bytes_iff t (item app j)).0 same) in
          elim (far k e le lt) [ ]
      | inr other ↦ rw other (item_new app m j items lt small below)
    ]
  where
    far : (k : ℕ) → k ≡ j → k ≤ m → m < j → ⊥
    far k e le lt = omega (arith, e, le, lt)

numbered-All :
    (app : App) (m j n : ℕ) (items : List Bytes)
    → m < j
    → j + n < 2 ^ 63
    → Below app m items
    → All (λ t. has_text t items ≡ false) (numbered app j n)
numbered-All app m j zero items lt small below = tt
numbered-All app m j (suc n) items lt small below = (
  item_new app m j items lt (omega (arith, small)) below,
  numbered-All app m (suc j) n items (omega (arith, lt)) (omega (arith, small)) below,
)

-- If the last unit of an app has the highest number of all and the numbers stay below 2 ^ 63,
-- the new quota items have the next numbers, and none is that of a unit.
pub generate_fresh :
    (app : App) (u : AppUnit) (m n : ℕ)
    → last_unit app.units ≡ some u
    → u.quota_item ≡ item app m
    → suc m + n < 2 ^ 63
    → Below app m (quota_items app.units)
    → (generate_unit_quota_items app n ≡ numbered app (suc m) n)
      × All (λ t. has_text t (quota_items app.units) ≡ false) (generate_unit_quota_items app n)
unfolding generate_unit_quota_items
generate_fresh app u m n last at small below =
    let e =
      ap (λ (k : ℕ). items_from app k n) (initial_item_lem app u m last at (omega (arith, small)))
      ∙ items_from-numbered app (suc m) n small in
    (
      e,
      subst (All (λ t. has_text t (quota_items app.units) ≡ false)) (sym e)
          (numbered-All app m (suc m) n (quota_items app.units) (omega arith) small below),
    )
