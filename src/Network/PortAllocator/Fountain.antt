-- ===== src/Network/PortAllocator/Fountain.antt =====
-- The loop over the fountain: what it returns, and when it ends.
use docker_stuff.Base.{
  ℕ, zero, suc, ◌+◌, ◌-◌, ◌%◌, ◌≤◌, ◌<◌, ◌==◌, ◌≡◌, inl, inr, refl, sym, ap, ◌∙◌, true, false, ◌||◌,
  ◌∷◌, Option, none, some, contains, arith, Bool-cases, contains-cons,
}
use mathlib.Core.Path.{subst₂}
use docker_stuff.Network.IpAllocator.Positions.{InRange, visit, visit_onto, next_range}
use docker_stuff.Network.PortAllocator.{
  PortAllocator, Acquired, port_range_start, port_range_end, after_port, acquire_port,
  from_fountain,
}

-- The ports that the fountain yields.
abbrev pub InFountain : ℕ → Type 0
InFountain p = (port_range_start ≤ p) × (p < port_range_end)

abbrev pub fountain_size : ℕ
fountain_size = port_range_end - port_range_start

after_port-InFountain : (p : ℕ) → InFountain p → InFountain (after_port p)
unfolding after_port
after_port-InFountain p h = ground arith

-- A port that the fountain yielded was free, is now in use, and nothing else has changed.
pub record IsTaken (a : PortAllocator) (p : ℕ) (b : PortAllocator) : Type 0 where
  pub in_fountain : InFountain p
  pub was_free : contains a.in_use p ≡ false
  pub now_used : (q : ℕ) → contains b.in_use q ≡ (p == q || contains a.in_use q)
  pub next_ok : InFountain b.next

pub acquire_port_busy :
    (p : ℕ) (a : PortAllocator) → contains a.in_use p ≡ true → acquire_port p a ≡ (none, a)
unfolding acquire_port
acquire_port_busy p a h = rw h

pub acquire_port_free :
    (p : ℕ) (a : PortAllocator)
    → contains a.in_use p ≡ false
    → acquire_port p a ≡ (some p, record a { in_use = p ∷ a.in_use })
unfolding acquire_port
acquire_port_free p a h = rw h

busy_step :
    (fuel : ℕ) (a : PortAllocator)
    → contains a.in_use a.next ≡ true
    → from_fountain (suc fuel) a ≡ from_fountain fuel (record a { next = after_port a.next })
unfolding from_fountain
busy_step fuel a h =
    let e = acquire_port_busy a.next (record a { next = after_port a.next }) h in
    rw (e, from_fountain) (ap (λ (r : Acquired). from_fountain fuel r.1) e)

free_step :
    (fuel : ℕ) (a : PortAllocator)
    → contains a.in_use a.next ≡ false
    → from_fountain (suc fuel) a
      ≡ some (a.next, record { in_use = a.next ∷ a.in_use; next = after_port a.next })
unfolding from_fountain
free_step fuel a h =
    let e = acquire_port_free a.next (record a { next = after_port a.next }) h in
    rw (e, from_fountain) (ap (λ (r : Acquired). some (a.next, r.1)) e)

first_port :
    (a : PortAllocator)
    → InFountain a.next
    → contains a.in_use a.next ≡ false
    → (p : ℕ) (b : PortAllocator)
    → ◌≡◌ {A = Option (ℕ × PortAllocator)}
        (some (a.next, record { in_use = a.next ∷ a.in_use; next = after_port a.next }))
        (some (p, b))
    → IsTaken a p b
first_port a h free p b e =
    let same : p ≡ a.next = cc in
    let used : b.in_use ≡ a.next ∷ a.in_use = ground arith in
    let next : b.next ≡ after_port a.next = ground arith in
    record {
      in_fountain = rw same h;
      was_free = rw same free;
      now_used = λ q. rw (same, used) (contains-cons a.in_use a.next q);
      next_ok = rw next (after_port-InFountain a.next h);
    }

pub from_fountain_sound :
    (fuel : ℕ) (a : PortAllocator) (p : ℕ) (b : PortAllocator)
    → InFountain a.next
    → from_fountain fuel a ≡ some (p, b)
    → IsTaken a p b
from_fountain_sound zero a p b h e = unfold from_fountain in cc
from_fountain_sound (suc fuel) a p b h e = elim (Bool-cases (contains a.in_use a.next)) [
  | inl busy ↦
      let t =
        from_fountain_sound fuel (record a { next = after_port a.next }) p b
          (after_port-InFountain a.next h) (sym (busy_step fuel a busy) ∙ e) in
      record {
        in_fountain = t.in_fountain;
        was_free = t.was_free;
        now_used = t.now_used;
        next_ok = t.next_ok;
      }
  | inr free ↦ let same = sym (free_step fuel a free) ∙ e in first_port a h free p b same
]

-- After `n` rounds at most, the loop has come by the `n`-th port from where the fountain stands.
nth_port : ℕ → ℕ → ℕ
nth_port p zero = p
nth_port p (suc n) = nth_port (after_port p) n

from_fountain_ends :
    (fuel n : ℕ) (a : PortAllocator)
    → n < fuel
    → contains a.in_use (nth_port a.next n) ≡ false
    → (p : ℕ) × (b : PortAllocator) × (from_fountain fuel a ≡ some (p, b))
from_fountain_ends zero n a lt free = absurd (omega arith)
from_fountain_ends (suc fuel) zero a lt free =
    (a.next, _, free_step fuel a (unfold nth_port in free))
from_fountain_ends (suc fuel) (suc n) a lt free = elim (Bool-cases (contains a.in_use a.next)) [
  | inr now ↦ (a.next, _, free_step fuel a now)
  | inl busy ↦
      let (p, b, e) =
        from_fountain_ends fuel n (record a { next = after_port a.next }) (omega arith)
          (unfold nth_port in free) in
      (p, b, busy_step fuel a busy ∙ e)
]

after_port-visit :
    (p : ℕ) → InRange fountain_size p → after_port (49152 + p) ≡ 49152 + (p % fountain_size + 1)
unfolding after_port
after_port-visit p h = ground arith

nth_port-visit :
    (n p : ℕ) → InRange fountain_size p → nth_port (49152 + p) n ≡ 49152 + visit fountain_size p n
unfolding nth_port visit
nth_port-visit zero p h = refl
nth_port-visit (suc n) p h =
    rw (after_port-visit p h)
      (nth_port-visit n (p % fountain_size + 1) (next_range fountain_size (omega arith) p))

reaches :
    (p q : ℕ)
    → InRange fountain_size p
    → InRange fountain_size q
    → (n : ℕ) × (n < fountain_size) × (nth_port (49152 + p) n ≡ 49152 + q)
reaches p q hp hq =
    let (n, lt, e) = visit_onto fountain_size (omega arith) p q hp hq in
    (n, lt, nth_port-visit n p hp ∙ ap (λ (t : ℕ). 49152 + t) e)

-- A free port among those of the fountain makes `Acquire(0)` return within one turn of the fountain.
pub from_fountain_total :
    (a : PortAllocator) (q : ℕ)
    → InFountain a.next
    → InFountain q
    → contains a.in_use q ≡ false
    → (p : ℕ) × (b : PortAllocator) × (from_fountain fountain_size a ≡ some (p, b))
from_fountain_total a q h hq free =
    let (n, lt, at) = reaches (a.next - 49152) (q - 49152) (omega arith) (omega arith) in
    let next : 49152 + (a.next - 49152) ≡ a.next = omega arith in
    let port : 49152 + (q - 49152) ≡ q = omega arith in
    let there : nth_port a.next n ≡ q = subst₂ (λ x y. nth_port x n ≡ y) next port at in
    from_fountain_ends fountain_size n a lt (ap (contains a.in_use) there ∙ free)

-- With every port of the fountain in use, the loop of `Acquire(0)` never ends.
pub from_fountain_stuck :
    (fuel : ℕ) (a : PortAllocator)
    → InFountain a.next
    → ((q : ℕ) → InFountain q → contains a.in_use q ≡ true)
    → from_fountain fuel a ≡ none
from_fountain_stuck zero a h all = unfold from_fountain in refl
from_fountain_stuck (suc fuel) a h all =
    busy_step fuel a (all a.next h)
    ∙ from_fountain_stuck fuel (record a { next = after_port a.next })
        (after_port-InFountain a.next h) all
