-- ===== src/Network/IpAllocator/Positions.antt =====
-- The positions `1 .. max` of the allocator, the order in which the search visits them, and the
-- addresses at them.
use docker_stuff.Base.{
  ℕ, zero, suc, ◌+◌, ◌-◌, ◌%◌, ◌^◌, ◌≤◌, ◌<◌, ◌≡◌, ◌≢◌, ◌⊎◌, true, false, List, contains, arith, ap,
  ◌∙◌,
}
use native.Mathlib.Decide.{dec_le}
use native.Mathlib.Nat.{mod-add-mod, add-mod_right, mod-eq_of_lt}

-- The address at a position.
abbrev pub address : ℕ → ℕ → ℕ
address base i = (base + i) % 2 ^ 32

abbrev pub InRange : ℕ → ℕ → Type 0
InRange max p = (1 ≤ p) × (p ≤ max)

-- An address that the search may return, and one that it passes over.
module _ (own : ℕ) (used : List ℕ) where
  abbrev pub IsFree : ℕ → Type 0
  IsFree x = (x ≢ own) × (contains used x ≡ false)

  abbrev pub IsTaken : ℕ → Type 0
  IsTaken x = (x ≡ own) ⊎ (contains used x ≡ true)

-- The position of the `j`-th attempt.
unfoldable pub visit : ℕ → ℕ → ℕ → ℕ
visit max p zero = p
visit max p (suc j) = visit max (p % max + 1) j

module _ (max : ℕ) (two : 2 ≤ max) where
  pub next_range : (p : ℕ) → InRange max (p % max + 1)
  next_range p = grind arith

  mod_shift : (p j : ℕ) → (p % max + j) % max ≡ (p + j) % max
  mod_shift p j = mod-add-mod p max j

  drop_one : (q j : ℕ) → q + 1 - 1 + j ≡ q + j
  drop_one q j = omega arith

  move_one : (p j : ℕ) → 1 ≤ p → p + j ≡ p - 1 + suc j
  move_one p j h = omega arith

  visit-eq : (p j : ℕ) → InRange max p → visit max p j ≡ (p - 1 + j) % max + 1
  unfolding visit
  visit-eq p zero h = grind arith
  visit-eq p (suc j) h =
      visit-eq (p % max + 1) j (next_range p)
      ∙ ap (λ (t : ℕ). t % max + 1) (drop_one (p % max) j)
      ∙ ap (λ (t : ℕ). t + 1) (mod_shift p j)
      ∙ ap (λ (t : ℕ). t % max + 1) (move_one p j h.0)

  ahead : (p i : ℕ) → p ≤ i → 1 ≤ p → InRange max i → (p - 1 + (i - p)) % max + 1 ≡ i
  ahead p i le one h =
      let e : p - 1 + (i - p) ≡ i - 1 = omega arith in
      rw (e, mod-eq_of_lt {n = i - 1} {m = max} (omega arith)) (omega arith)

  behind : (p i : ℕ) → i < p → InRange max p → InRange max i → (p - 1 + (i + max - p)) % max + 1 ≡ i
  behind p i lt hp hi =
      let e : p - 1 + (i + max - p) ≡ i - 1 + max = omega arith in
      rw (e, add-mod_right (i - 1) max, mod-eq_of_lt {n = i - 1} {m = max} (omega arith))
        (omega arith)

  -- A round of `max` attempts comes by every position.
  pub visit_onto :
      (p i : ℕ) → InRange max p → InRange max i → (j : ℕ) × (j < max) × (visit max p j ≡ i)
  visit_onto p i hp hi = elim (dec_le p i) [
    | yes le ↦ (i - p, omega arith, visit-eq p (i - p) hp ∙ ahead p i le hp.0 hi)
    | no gt ↦
        (i + max - p, omega arith, visit-eq p (i + max - p) hp ∙ behind p i (omega arith) hp hi)
  ]

-- Two positions have two addresses.
pub address-injective :
    (base max i k : ℕ)
    → max < 2 ^ 31
    → InRange max i
    → InRange max k
    → address base i ≡ address base k
    → i ≡ k
address-injective base max i k small hi hk e = omega arith
