-- ===== src/Network/Ip/Overlap.antt =====
-- When `networkOverlaps` says yes.

use docker_stuff.Base.{
  ℕ, zero, suc, ◌-◌, ◌^◌, ◌≤◌, ◌&&◌, ◌≡◌, ◌↔◌, ◌⊎◌, inl, inr, Bool, true, arith, refl, ◌<◌, ◌||◌,
}
use docker_stuff.Base.Bits.{bit_and_assoc, bit_and_comm, bit_and_idem}
use docker_stuff.Network.Ip.{
  Quad, IpNet, int_to_ip, and_quad, eq_quad, contains_ip, network_range, network_overlaps,
}

pub eq_quad_iff : (a b : Quad) → (eq_quad a b ≡ true) ↔ (a ≡ b)
unfolding eq_quad
eq_quad_iff a b = ground arith

pub and_quad_assoc : (a b c : Quad) → and_quad (and_quad a b) c ≡ and_quad a (and_quad b c)
unfolding and_quad
and_quad_assoc a b c = ground (
  arith,
  bit_and_assoc a.b0 b.b0 c.b0,
  bit_and_assoc a.b1 b.b1 c.b1,
  bit_and_assoc a.b2 b.b2 c.b2,
  bit_and_assoc a.b3 b.b3 c.b3,
)

pub and_quad_comm : (a b : Quad) → and_quad a b ≡ and_quad b a
unfolding and_quad
and_quad_comm a b = ground (
  arith,
  bit_and_comm a.b0 b.b0,
  bit_and_comm a.b1 b.b1,
  bit_and_comm a.b2 b.b2,
  bit_and_comm a.b3 b.b3,
)

pub and_quad_idem : (a : Quad) → and_quad a a ≡ a
unfolding and_quad
and_quad_idem a =
    ground (arith, bit_and_idem a.b0, bit_and_idem a.b1, bit_and_idem a.b2, bit_and_idem a.b3)

-- The address `a` belongs to the network.
abbrev pub Within : IpNet → Quad → Type 0
Within n a = and_quad n.ip n.mask ≡ and_quad a n.mask

-- Every bit of the mask `m` is set in `k`, as for the masks of two prefix lengths.
abbrev pub Coarser : Quad → Quad → Type 0
Coarser m k = and_quad k m ≡ m

pub contains_ip_iff : (n : IpNet) (a : Quad) → (contains_ip n a ≡ true) ↔ Within n a
unfolding contains_ip
contains_ip_iff n a = eq_quad_iff (and_quad n.ip n.mask) (and_quad a n.mask)

pub first-Within : (n : IpNet) → Within n (network_range n).0
unfolding network_range
first-Within n = cc (and_quad_assoc n.ip n.mask n.mask, and_quad_idem n.mask)

-- A coarser network that shares an address with `x` contains the first address of `x`.
shared-Within :
    (x y : IpNet) (a : Quad)
    → Coarser y.mask x.mask
    → Within x a
    → Within y a
    → Within y (network_range x).0
unfolding network_range
shared-Within x y a c hx hy = cc (and_quad_assoc a x.mask y.mask)

or_true : (a b : Bool) → (a || b) ≡ true → (a ≡ true) ⊎ (b ≡ true)
or_true a b h = ground arith

pub overlaps-shared :
    (x y : IpNet) → network_overlaps x y ≡ true → (a : Quad) × Within x a × Within y a
unfolding network_overlaps
overlaps-shared x y h = elim (or_true (contains_ip y (network_range x).0) _ h) [
  | inl p ↦ ((network_range x).0, first-Within x, (contains_ip_iff y _).0 p)
  | inr p ↦ ((network_range y).0, (contains_ip_iff x _).0 p, first-Within y)
]

or_intro : (a b : Bool) → (a ≡ true) ⊎ (b ≡ true) → (a || b) ≡ true
or_intro a b h = ground arith

pub shared-overlaps :
    (x y : IpNet) (a : Quad)
    → Coarser x.mask y.mask ⊎ Coarser y.mask x.mask
    → Within x a
    → Within y a
    → network_overlaps x y ≡ true
unfolding network_overlaps
shared-overlaps x y a (inl c) hx hy =
    or_intro _ _ (inr ((contains_ip_iff x _).1 (shared-Within y x a c hy hx)))
shared-overlaps x y a (inr c) hx hy =
    or_intro _ _ (inl ((contains_ip_iff y _).1 (shared-Within x y a c hx hy)))

-- `net.CIDRMask(k, 32)`, the mask of a prefix of `k` bits
abbrev pub cidr_mask : ℕ → Quad
unfolding int_to_ip
cidr_mask k = int_to_ip (2 ^ 32 - 2 ^ (32 - k))

nested_at : ℕ → ℕ → Bool
nested_at j k =
    eq_quad (and_quad (cidr_mask k) (cidr_mask j)) (cidr_mask j)
    || eq_quad (and_quad (cidr_mask j) (cidr_mask k)) (cidr_mask k)

-- Test the numbers under a bound, the largest first.
every : (ℕ → Bool) → ℕ → Bool
every test zero = true
every test (suc bound) = test bound && every test bound

every_at : (test : ℕ → Bool) (bound i : ℕ) → i < bound → every test bound ≡ true → test i ≡ true
unfolding every
every_at test zero i below e = absurd (omega arith)
every_at test (suc bound) i below e = let earlier = every_at test bound i in ground (arith, earlier)

nested_table : every (λ j. every (nested_at j) 33) 33 ≡ true
unfolding every nested_at eq_quad and_quad int_to_ip
nested_table = refl

nested_at-Coarser :
    (j k : ℕ)
    → nested_at j k ≡ true
    → Coarser (cidr_mask j) (cidr_mask k) ⊎ Coarser (cidr_mask k) (cidr_mask j)
unfolding nested_at
nested_at-Coarser j k h = elim (or_true _ _ h) [
  | inl p ↦ inl ((eq_quad_iff _ _).0 p)
  | inr p ↦ inr ((eq_quad_iff _ _).0 p)
]

cidr_mask-Coarser :
    (j k : ℕ)
    → j ≤ 32
    → k ≤ 32
    → Coarser (cidr_mask j) (cidr_mask k) ⊎ Coarser (cidr_mask k) (cidr_mask j)
cidr_mask-Coarser j k hj hk = nested_at-Coarser j k (
    every_at (nested_at j) 33 k (omega arith)
      (every_at (λ i. every (nested_at i) 33) 33 j (omega arith) nested_table))

-- For two networks whose masks are those of prefix lengths, networkOverlaps says yes exactly if
-- some address belongs to both: a yes comes with such an address, and any such address makes it
-- a yes.
network_overlaps_exact :
    (x y : IpNet) (j k : ℕ)
    → j ≤ 32
    → k ≤ 32
    → x.mask ≡ cidr_mask j
    → y.mask ≡ cidr_mask k
    → (network_overlaps x y ≡ true → (a : Quad) × Within x a × Within y a)
      × ((a : Quad) → Within x a → Within y a → network_overlaps x y ≡ true)
network_overlaps_exact x y j k hj hk ex ey =
    (overlaps-shared x y, λ a. shared-overlaps x y a (rw (ex, ey) (cidr_mask-Coarser j k hj hk)))
