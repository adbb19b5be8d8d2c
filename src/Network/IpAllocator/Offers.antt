-- ===== src/Network/IpAllocator/Offers.antt =====
-- What a round of `run` offers, and what serving a client leaves behind.
use docker_stuff.Base.{
  ℕ, ◌+◌, ◌%◌, ◌^◌, ◌≤◌, ◌<◌, ◌==◌, ◌≡◌, ◌≢◌, ◌⊎◌, ◌↔◌, inl, inr, ◌||◌, true, false, contains,
  arith, refl, sym, ap, ◌∙◌, contains-insert,
}
use native.Mathlib.Decide.{ℕ_discrete}
use mathlib.Core.Bool.{false≢true}
use docker_stuff.Network.Ip.{IpNet, IsIpNet, int_to_ip}
use docker_stuff.Network.IpAllocator.{
  IpAllocator, Offer, AllocatedIp, prepare, rounds, ip_num, own_ip, max_pos, acquire,
}
use docker_stuff.Network.IpAllocator.Positions.{
  address, InRange, IsFree, IsTaken, visit, next_range, visit_onto, address-injective,
}
use docker_stuff.Network.IpAllocator.Search.{Found, GaveUp, search_lem}

-- The address at a position of a network, and whether the search may return it.
abbrev pub host : IpNet → ℕ → ℕ
host n i = address (ip_num n) i

abbrev pub IsHost : IpNet → ℕ → Type 0
IsHost n i = InRange (max_pos n) i

abbrev pub IsFreeHost : IpAllocator → ℕ → Type 0
IsFreeHost a x = IsFree (own_ip a.network) a.in_use x

abbrev pub IsTakenHost : IpAllocator → ℕ → Type 0
IsTakenHost a x = IsTaken (own_ip a.network) a.in_use x

-- A network with two host addresses or more, whose number is a positive `int32`, and a position in
-- the range.
pub record IsValid (a : IpAllocator) : Type 0 where
  pub fits : IsIpNet a.network
  pub two : 2 ≤ max_pos a.network
  pub small : max_pos a.network < 2 ^ 31
  pub pos_ok : IsHost a.network a.pos

pub record Exhausted (a : IpAllocator) (r : Offer) : Type 0 where
  pub all_taken : (i : ℕ) → IsHost a.network i → IsTakenHost a (host a.network i)
  pub flag : r.exhausted ≡ true
  pub in_range : IsHost a.network r.next_pos
  pub last : IsTakenHost a r.new_num

abbrev pub FoundHost : IpAllocator → Offer → Type 0
FoundHost a r = Found (ip_num a.network) (own_ip a.network) (max_pos a.network) a.in_use r

abbrev start : IpAllocator → Offer
start a = record { next_pos = a.pos; new_num = 0; exhausted = false }

neighbour : (max p : ℕ) → 2 ≤ max → InRange max p → p ≢ p % max + 1
neighbour max p two h = grind arith

-- Two attempts in a row come by two addresses, so one of them is not the network's own.
GaveUp-exhausted :
    (a : IpAllocator) (r : Offer)
    → IsValid a
    → GaveUp
        (ip_num a.network)
        (own_ip a.network)
        (max_pos a.network)
        a.in_use
        (max_pos a.network)
        (start a)
        r
    → r.exhausted ≡ true
unfolding visit
GaveUp-exhausted a r v g = elim (ℕ_discrete (host a.network a.pos) (own_ip a.network)) [
  | no ne ↦ g.flagged 0 (omega (arith, v.two)) ne
  | yes e ↦ g.flagged 1 v.two λ e'. neighbour (max_pos a.network) a.pos v.two v.pos_ok (
      address-injective (ip_num a.network) (max_pos a.network) a.pos (a.pos % max_pos a.network + 1)
        v.small v.pos_ok (next_range _ v.two a.pos) (e ∙ sym e'))
]

GaveUp-Exhausted :
    (a : IpAllocator) (r : Offer)
    → IsValid a
    → GaveUp
        (ip_num a.network)
        (own_ip a.network)
        (max_pos a.network)
        a.in_use
        (max_pos a.network)
        (start a)
        r
    → Exhausted a r
GaveUp-Exhausted a r v g = record {
  all_taken = λ i h.
      let (j, lt, e) = visit_onto (max_pos a.network) v.two a.pos i v.pos_ok h in
      rw e at (g.taken j lt);
  flag = GaveUp-exhausted a r v g;
  in_range = g.in_range;
  last = g.last (inl (omega (arith, v.two)));
}

pub rounds-eq : (max : ℕ) → max < 2 ^ 31 → rounds max ≡ max
unfolding rounds
rounds-eq max h = ground arith

pub prepare_lem : (a : IpAllocator) → IsValid a → FoundHost a (prepare a) ⊎ Exhausted a (prepare a)
unfolding prepare
prepare_lem a v =
    rw (rounds-eq (max_pos a.network) v.small)
      (elim (search_lem (ip_num a.network) (own_ip a.network) (max_pos a.network) a.in_use v.two
        v.small (max_pos a.network) (start a) v.pos_ok) [
          | inl f ↦ inl f
          | inr g ↦ inr (GaveUp-Exhausted a _ v g)
        ])

-- What an address that `Acquire` returns without an error is.
pub record IsFresh (a : IpAllocator) (r : AllocatedIp) (b : IpAllocator) : Type 0 where
  pub at : ℕ
  pub is_host : IsHost a.network at
  pub address : r.ip ≡ int_to_ip (host a.network at)
  pub was_free : IsFreeHost a (host a.network at)
  pub now_used : (x : ℕ) → contains b.in_use x ≡ (host a.network at == x || contains a.in_use x)

-- In a valid state, an address that is acquired without an error is a host address of the
-- network, neither the network's own nor one in use, and from then on it is in use, and no other
-- address changes its state.
pub acquire-IsFresh :
    (a : IpAllocator)
    → IsValid a
    → (acquire a).0.failed ≡ false
    → IsFresh a (acquire a).0 (acquire a).1
unfolding acquire
acquire-IsFresh a v ok = elim (prepare_lem a v) [
  | inl f ↦ record {
    at = f.at;
    is_host = f.in_range;
    address = ap int_to_ip f.number;
    was_free = f.free;
    now_used = λ x.
        contains-insert a.in_use (prepare a).new_num x
        ∙ ap (λ (t : ℕ). t == x || contains a.in_use x) f.number;
  }
  | inr e ↦ absurd (false≢true (sym ok ∙ e.flag))
]

taken_not_free : (a : IpAllocator) (x : ℕ) → IsTakenHost a x → ¬ IsFreeHost a x
taken_not_free a x (inl e) f = f.0 e
taken_not_free a x (inr e) f = false≢true (sym f.1 ∙ e)

-- In a valid state, Acquire fails exactly if every host address but the network's own is in use.
pub acquire_failed_iff :
    (a : IpAllocator)
    → IsValid a
    → ((acquire a).0.failed ≡ true)
      ↔ ((i : ℕ) → IsHost a.network i → IsTakenHost a (host a.network i))
unfolding acquire
acquire_failed_iff a v = elim (prepare_lem a v) [
  | inl f ↦ (
    λ e. absurd (false≢true (sym f.is_ok ∙ e)),
    λ all. absurd (taken_not_free a _ (all f.at f.in_range) f.free),
  )
  | inr e ↦ (λ _. e.all_taken, λ _. e.flag)
]

-- A failed `Acquire` marks nothing that a search could have returned.
pub acquire_failed-in_use :
    (a : IpAllocator)
    → IsValid a
    → (acquire a).0.failed ≡ true
    → (x : ℕ) → x ≢ own_ip a.network
    → contains (acquire a).1.in_use x ≡ contains a.in_use x
unfolding acquire
acquire_failed-in_use a v failed x ne = elim (prepare_lem a v) [
  | inl f ↦ absurd (false≢true (sym f.is_ok ∙ failed))
  | inr e ↦ elim e.last [
    | inl own ↦ ground (arith, contains-insert a.in_use (prepare a).new_num x)
    | inr there ↦ ground (arith, contains-insert a.in_use (prepare a).new_num x)
  ]
]

pub acquire-IsValid : (a : IpAllocator) → IsValid a → IsValid (acquire a).1
unfolding acquire
acquire-IsValid a v = record {
  fits = v.fits;
  two = v.two;
  small = v.small;
  pos_ok = elim (prepare_lem a v) [
    | inl f ↦ rw f.goes_on (next_range (max_pos a.network) v.two f.at)
    | inr e ↦ e.in_range
  ];
}

pub acquire-network : (a : IpAllocator) → (acquire a).1.network ≡ a.network
unfolding acquire
acquire-network a = refl
