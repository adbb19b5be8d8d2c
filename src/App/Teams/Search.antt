-- ===== src/App/Teams/Search.antt =====
-- The binary search finds where the tested property starts to hold.
use docker_stuff.Base.{
  ℕ, zero, suc, ◌+◌, ◌-◌, ◌/◌, ◌≤◌, ◌<◌, ltb, ◌≡◌, refl, Bool, true, false, some, arith, Bool-cases,
  inl, inr,
}
use docker_stuff.App.Teams.{search}

-- All tests below an index fail, and all from it on succeed.
abbrev pub Starts : (ℕ → Bool) → ℕ → Type 0
Starts f r = ((k : ℕ) → k < r → f k ≡ false) × ((k : ℕ) → r ≤ k → f k ≡ true)

abbrev pub Monotone : (ℕ → Bool) → Type 0
Monotone f = (h k : ℕ) → h ≤ k → f h ≡ true → f k ≡ true

middle : (i j : ℕ) → i < j → (i ≤ i + (j - i) / 2) × (i + (j - i) / 2 < j)
middle i j lt = (omega arith, omega (arith, lt))

still_false : (f : ℕ → Bool) (h k : ℕ) → Monotone f → k ≤ h → f h ≡ false → f k ≡ false
still_false f h k mono le e = elim (Bool-cases (f k)) [
  | inl holds ↦ elim (unlike (mono k h le holds) e) [ ]
  | inr fails ↦ fails
]
  where
    unlike : {b : Bool} → b ≡ true → b ≡ false → ⊥
    unlike x y = cc

pub search-Starts :
    (fuel : ℕ) (f : ℕ → Bool) (i j : ℕ)
    → Monotone f
    → i ≤ j
    → j < i + fuel
    → ((k : ℕ) → k < i → f k ≡ false)
    → ((k : ℕ) → j ≤ k → f k ≡ true)
    → (r : ℕ) × (search fuel f i j ≡ some r) × (r ≤ j) × Starts f r
unfolding search
search-Starts zero f i j mono le enough below above =
    elim (none_fits (omega (arith, le, enough))) [ ]
  where
    none_fits : ⊥ → ⊥
    none_fits e = e
search-Starts (suc fuel) f i j mono le enough below above = elim (Bool-cases (ltb i j)) [
  | inl more ↦
      let h = i + (j - i) / 2 in
      let (lo, hi) = middle i j (ground (arith, more)) in
      elim (Bool-cases (f h)) [
        | inl yes_h ↦
            rw (more, yes_h)
              (let (r, e, at_most, starts) =
                  search-Starts fuel f i h mono lo (omega (arith, hi, enough)) below
                    (λ k ge. mono h k ge yes_h) in
                (r, e, omega (arith, at_most, hi), starts))
        | inr no_h ↦
            rw (more, no_h)
              (search-Starts fuel f (suc h) j mono hi (omega (arith, lo, enough))
                (λ k lt. still_false f h k mono (omega (arith, lt)) no_h) above)
      ]
  | inr done ↦ (i, rw done refl, le, (below, λ k ge. above k (ground (arith, done, le, ge))))
]
