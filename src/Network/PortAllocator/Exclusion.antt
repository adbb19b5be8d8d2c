-- ===== src/Network/PortAllocator/Exclusion.antt =====
-- `Acquire` and `Release` together: a port has one owner at a time.
use docker_stuff.Base.{
  ℕ, ◌==◌, ◌≡◌, ◌≢◌, refl, ◌∙◌, true, false, ◌||◌, List, ◌∷◌, none, some, contains, remove, arith,
  contains-cons, contains-remove, ==_refl,
}
use native.Mathlib.Decide.{ℕ_discrete}
use docker_stuff.Network.PortAllocator.{
  PortAllocator, acquire_port, from_fountain, acquire, release_port,
}
use docker_stuff.Network.PortAllocator.Fountain.{
  InFountain, IsTaken, fountain_size, from_fountain_sound, from_fountain_total, from_fountain_stuck,
}

pub put_back :
    (before after : List ℕ) (p q : ℕ)
    → contains before p ≡ false
    → contains after q ≡ (p == q || contains before q)
    → contains (remove after p) q ≡ contains before q
put_back before after p q free used = elim (ℕ_discrete p q) [
  | yes e ↦ rw (← e) (rw (contains-remove after p p, ==_refl p, free))
  | no ne ↦ ground (arith, contains-remove after p q)
]

-- Acquire(0), with the fountain in its range and a free port there, returns within one turn of
-- the fountain: a port of the range that was free, that is in use from then on, and nothing else
-- is.
acquire_any :
    (a : PortAllocator) (q : ℕ)
    → InFountain a.next
    → InFountain q
    → contains a.in_use q ≡ false
    → (p : ℕ) × (b : PortAllocator) × (acquire fountain_size 0 a ≡ some (some p, b)) × IsTaken a p b
unfolding acquire
acquire_any a q h hq free =
    let (p, b, e) = from_fountain_total a q h hq free in
    (p, b, rw e, from_fountain_sound fountain_size a p b h e)

-- With the fountain in its range and every port of the range in use, Acquire(0) makes rounds for
-- ever: it returns neither a port nor an error.
pub acquire_stuck :
    (fuel : ℕ) (a : PortAllocator)
    → InFountain a.next
    → ((q : ℕ) → InFountain q → contains a.in_use q ≡ true)
    → acquire fuel 0 a ≡ none
unfolding acquire
acquire_stuck fuel a h all = rw (from_fountain_stuck fuel a h all)

zero_inv :
    (fuel : ℕ) (a b : PortAllocator) (p : ℕ)
    → acquire fuel 0 a ≡ some (some p, b)
    → from_fountain fuel a ≡ some (p, b)
unfolding acquire
zero_inv fuel a b p e = ground arith

given_inv :
    (fuel port : ℕ) (a b : PortAllocator) (p : ℕ)
    → port ≢ 0
    → acquire fuel port a ≡ some (some p, b)
    → (p ≡ port)
      × (contains a.in_use port ≡ false)
      × (b.in_use ≡ port ∷ a.in_use)
      × (b.next ≡ a.next)
unfolding acquire acquire_port
given_inv fuel port a b p ne e = ground arith

-- What a successful `Acquire` of any kind does to the map.
pub record Owns (a : PortAllocator) (p : ℕ) (b : PortAllocator) : Type 0 where
  pub not_zero : p ≢ 0
  pub was_free : contains a.in_use p ≡ false
  pub now_used : (q : ℕ) → contains b.in_use q ≡ (p == q || contains a.in_use q)
  pub next_ok : InFountain b.next

pub acquire-Owns :
    (fuel port : ℕ) (a b : PortAllocator) (p : ℕ)
    → InFountain a.next
    → acquire fuel port a ≡ some (some p, b)
    → Owns a p b
acquire-Owns fuel port a b p h e = elim (ℕ_discrete port 0) [
  | yes zero_port ↦
      let t = from_fountain_sound fuel a p b h (zero_inv fuel a b p (rw zero_port at e)) in
      record {
        not_zero = λ z. absurd (omega (arith, t.in_fountain.0));
        was_free = t.was_free;
        now_used = t.now_used;
        next_ok = t.next_ok;
      }
  | no ne ↦
      let (same, free, used, next) = given_inv fuel port a b p ne e in
      record {
        not_zero = rw same ne;
        was_free = rw same free;
        now_used = λ q. rw (same, used) (contains-cons a.in_use port q);
        next_ok = rw next h;
      }
]

given_busy :
    (fuel port : ℕ) (a : PortAllocator)
    → port ≢ 0
    → contains a.in_use port ≡ true
    → acquire fuel port a ≡ some (none, a)
unfolding acquire acquire_port
given_busy fuel port a ne busy = ground arith

pub acquire_refused :
    (fuel port : ℕ) (a b : PortAllocator) → acquire fuel port a ≡ some (none, b) → b ≡ a
unfolding acquire acquire_port
acquire_refused fuel port a b e = ground arith

-- If the fountain stands in its range, as it does in every allocator the code makes, then
-- whichever way a port was acquired, the next Acquire of that port is refused and changes
-- nothing, and after its Release every port is in use or not as before.
pub acquire_exclusive :
    (fuel port : ℕ) (a b : PortAllocator) (p : ℕ)
    → InFountain a.next
    → acquire fuel port a ≡ some (some p, b)
    → (acquire fuel p b ≡ some (none, b))
      × ((q : ℕ) → contains (release_port p b).in_use q ≡ contains a.in_use q)
unfolding release_port
acquire_exclusive fuel port a b p h e =
    let o = acquire-Owns fuel port a b p h e in
    (
      given_busy fuel p b o.not_zero (o.now_used p ∙ rw ==_refl refl),
      λ q. put_back a.in_use b.in_use p q o.was_free (o.now_used q),
    )
