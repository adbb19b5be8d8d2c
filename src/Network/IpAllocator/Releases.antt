-- ===== src/Network/IpAllocator/Releases.antt =====
-- What `Release` gives back, and what the next `Acquire` then returns.
use docker_stuff.Base.{
  ℕ, ◌+◌, ◌-◌, ◌%◌, ◌^◌, ◌≤◌, ◌<◌, ◌==◌, ◌≡◌, ◌≢◌, ◌⊎◌, inl, inr, true, false, contains, arith,
  refl, ap, ◌∙◌, ==_refl, contains-remove, if◌then◌else◌,
}
use native.Mathlib.Decide.{dec_lt}
use native.Mathlib.Nat.{mod-eq_of_lt, mod_self}
use docker_stuff.Base.Bits.{bit_and-le}
use docker_stuff.Network.Ip.{Quad, IpNet, IsIpNet, int_to_ip, network_range, and_quad}
use docker_stuff.Network.Ip.Words.{ip_to_int-lt, ip_to_int-int_to_ip}
use docker_stuff.Network.IpAllocator.{
  IpAllocator, prepare, ip_num, own_ip, max_pos, acquire, release,
}
use docker_stuff.Network.IpAllocator.Positions.{InRange, address}
use docker_stuff.Network.IpAllocator.Search.{search_first}
use docker_stuff.Network.IpAllocator.Offers.{
  host, IsHost, FoundHost, IsFreeHost, IsValid, Exhausted, prepare_lem, rounds-eq,
}

pub ip_num-lt : (n : IpNet) → IsIpNet n → ip_num n < 2 ^ 32
unfolding ip_num network_range and_quad
ip_num-lt n h = ip_to_int-lt _ (record {
  fits0 = omega (arith, bit_and-le n.ip.b0 n.mask.b0, h.mask_fits.fits0);
  fits1 = omega (arith, bit_and-le n.ip.b1 n.mask.b1, h.mask_fits.fits1);
  fits2 = omega (arith, bit_and-le n.ip.b2 n.mask.b2, h.mask_fits.fits2);
  fits3 = omega (arith, bit_and-le n.ip.b3 n.mask.b3, h.mask_fits.fits3);
})

back_to : (base i : ℕ) → base < 2 ^ 32 → i < 2 ^ 31 → (address base i + 2 ^ 32 - base) % 2 ^ 32 ≡ i
back_to base i lt small = omega arith

step_back :
    (max at : ℕ)
    → InRange max at
    → 2 ≤ max
    → max < 2 ^ 31
    → (if at % max + 1 == 1 then max else (at % max + 1 + 2 ^ 32 - 1) % 2 ^ 32) ≡ at
step_back max at h two small = elim (dec_lt at max) [
  | yes lt ↦ rw (mod-eq_of_lt lt) (ground arith)
  | no ge ↦ let e : at ≡ max = omega (arith, h.1) in rw e (ground (arith, mod_self max))
]

pub host-lt : (n : IpNet) (i : ℕ) → host n i < 2 ^ 32
host-lt n i = omega arith

-- With an unused address on offer, a release goes back to its position.
pub release_found :
    (a : IpAllocator) (released : Quad)
    → IsValid a
    → (f : FoundHost a (prepare a)) → (release released a).pos ≡ f.at
unfolding release
release_found a released v f =
    rw (f.is_ok, f.goes_on) (step_back (max_pos a.network) f.at f.in_range v.two v.small)

-- With none, it goes to the released address.
pub release-Exhausted :
    (a : IpAllocator) (i : ℕ)
    → IsValid a
    → IsHost a.network i
    → Exhausted a (prepare a)
    → (release (int_to_ip (host a.network i)) a).pos ≡ i
unfolding release
release-Exhausted a i v h e =
    rw (e.flag, ip_to_int-int_to_ip (host a.network i) (host-lt a.network i))
      (back_to (ip_num a.network) i (ip_num-lt a.network v.fits) (omega (arith, v.small, h.1)))

pub release-in_use :
    (a : IpAllocator) (i x : ℕ)
    → contains (release (int_to_ip (host a.network i)) a).in_use x
      ≡ (if host a.network i == x then false else contains a.in_use x)
unfolding release
release-in_use a i x =
    rw (ip_to_int-int_to_ip (host a.network i) (host-lt a.network i))
      (contains-remove a.in_use (host a.network i) x)

pub release-network : (a : IpAllocator) (released : Quad) → (release released a).network ≡ a.network
unfolding release
release-network a released = refl

-- The state after the release of a host address.
pub release-IsValid :
    (a : IpAllocator) (i : ℕ)
    → IsValid a
    → IsHost a.network i
    → IsValid (release (int_to_ip (host a.network i)) a)
release-IsValid a i v h = record {
  fits = unfold release in v.fits;
  two = unfold release in v.two;
  small = unfold release in v.small;
  pos_ok = rw release-network (elim (prepare_lem a v) [
    | inl f ↦ rw (release_found a _ v f) f.in_range
    | inr e ↦ rw (release-Exhausted a i v h e) h
  ]);
}

-- A free address at the position is what the next round offers.
prepare_first :
    (a : IpAllocator)
    → IsValid a
    → IsFreeHost a (host a.network a.pos)
    → ((prepare a).new_num ≡ host a.network a.pos) × ((prepare a).exhausted ≡ false)
unfolding prepare
prepare_first a v f = rw (rounds-eq (max_pos a.network) v.small) (
    search_first (ip_num a.network) (own_ip a.network) (max_pos a.network) a.in_use v.two v.small
      (max_pos a.network) (record { next_pos = a.pos; new_num = 0; exhausted = false })
      (omega (arith, v.two)) f)

next_acquire :
    (a b : IpAllocator) (i : ℕ)
    → IsValid b
    → b.network ≡ a.network
    → b.pos ≡ i
    → IsFreeHost b (host a.network i)
    → ((acquire b).0.failed ≡ false) × ((acquire b).0.ip ≡ int_to_ip (host a.network i))
unfolding acquire
next_acquire a b i v en ep f =
    let same : host b.network b.pos ≡ host a.network i = rw (en, ep) in
    let (number, is_ok) = prepare_first b v (rw same f) in (is_ok, ap int_to_ip (number ∙ same))

released_free :
    (a : IpAllocator) (i j : ℕ)
    → host a.network j ≢ own_ip a.network
    → (i ≡ j) ⊎ (contains a.in_use (host a.network j) ≡ false)
    → IsFreeHost (release (int_to_ip (host a.network i)) a) (host a.network j)
released_free a i j ne (inl e) =
    (unfold release in ne, rw (release-in_use a i (host a.network j), e, ==_refl) refl)
released_free a i j ne (inr f) =
    (unfold release in ne, rw (release-in_use a i (host a.network j), f) (ground arith))

offer-Exhausted : (a : IpAllocator) → Exhausted a (prepare a) → (acquire a).0.failed ≡ true
unfolding acquire
offer-Exhausted a e = e.flag

offer_found :
    (a : IpAllocator)
    → (f : FoundHost a (prepare a))
    → ((acquire a).0.failed ≡ false) × ((acquire a).0.ip ≡ int_to_ip (host a.network f.at))
unfolding acquire
offer_found a f = (f.is_ok, ap int_to_ip f.number)

-- After the release of a host address other than the network's own, in a valid state, Acquire
-- succeeds: with the released address if none was free before, and with the address on offer if
-- there was one.
release-acquire :
    (a : IpAllocator) (i : ℕ)
    → IsValid a
    → IsHost a.network i
    → host a.network i ≢ own_ip a.network
    → ((acquire (release (int_to_ip (host a.network i)) a)).0.failed ≡ false)
      × ((acquire (release (int_to_ip (host a.network i)) a)).0.ip
          ≡ (if (acquire a).0.failed then int_to_ip (host a.network i) else (acquire a).0.ip))
release-acquire a i v h ne =
    let b = release (int_to_ip (host a.network i)) a in
    let valid = release-IsValid a i v h in
    elim (prepare_lem a v) [
      | inl f ↦
          let (is_ok, ip) =
            next_acquire a b f.at valid (release-network a _) (release_found a _ v f)
              (released_free a i f.at f.free.0 (inr f.free.1)) in
          let (was_ok, old_ip) = offer_found a f in (is_ok, rw (was_ok, old_ip) ip)
      | inr e ↦
          let (is_ok, ip) =
            next_acquire a b i valid (release-network a _) (release-Exhausted a i v h e)
              (released_free a i i ne (inl refl)) in
          (is_ok, rw (offer-Exhausted a e) ip)
    ]
