-- ===== src/Network/Manager/Addresses.antt =====
-- The address that `NetworkManager.Allocate` gives to an interface.
use docker_stuff.Base.{
  ℕ, ◌+◌, ◌%◌, ◌^◌, ◌==◌, ◌≡◌, ◌≢◌, ◌⊎◌, inl, inr, sym, ap, ◌∙◌, Bool, true, false, ◌||◌, arith,
  ==_iff,
}
use mathlib.Core.Bool.{false≢true}
use docker_stuff.Network.Ip.{Quad, ip_to_int, int_to_ip}
use docker_stuff.Network.Ip.Words.{ip_to_int-int_to_ip}
use docker_stuff.Network.IpAllocator.{ip_num, acquire}
use docker_stuff.Network.IpAllocator.Offers.{
  host, IsHost, IsFreeHost, IsValid, acquire-IsFresh, acquire-IsValid,
}
use docker_stuff.Network.IpAllocator.Releases.{host-lt}
use docker_stuff.Network.Manager.{NetworkManager, NetworkInterface, ok, allocate}

abbrev first_number : NetworkManager → ℕ
first_number m = (ip_num m.ip_allocator.network + 1) % 2 ^ 32

-- The two ways through `Allocate` that end without an error, for an enabled manager.
abbrev CameAtOnce : NetworkManager → NetworkInterface → Type 0
CameAtOnce m iface =
    ((acquire m.ip_allocator).0.failed ≡ false)
    × ((first_number m == ip_to_int (acquire m.ip_allocator).0.ip) ≡ false)
    × (iface.ip ≡ (acquire m.ip_allocator).0.ip)

abbrev CameAgain : NetworkManager → NetworkInterface → Type 0
CameAgain m iface =
    ((acquire m.ip_allocator).0.failed ≡ false)
    × ((first_number m == ip_to_int (acquire m.ip_allocator).0.ip) ≡ true)
    × ((acquire (acquire m.ip_allocator).1).0.failed ≡ false)
    × (iface.ip ≡ (acquire (acquire m.ip_allocator).1).0.ip)

allocate_came :
    (m : NetworkManager) (iface : NetworkInterface)
    → m.disabled ≡ false
    → (allocate m).0 ≡ ok iface
    → CameAtOnce m iface ⊎ CameAgain m iface
unfolding allocate
allocate_came m iface on e = ground arith

or_false : (a b : Bool) → (a || b) ≡ false → (a ≡ false) × (b ≡ false)
or_false a b h = ground arith

module _ (m : NetworkManager) (iface : NetworkInterface) (v : IsValid m.ip_allocator) where
  abbrev IsGood : Type 0
  IsGood =
      (i : ℕ) × IsHost m.ip_allocator.network i
      × (iface.ip ≡ int_to_ip (host m.ip_allocator.network i))
      × IsFreeHost m.ip_allocator (host m.ip_allocator.network i)
      × (i ≢ 1)

  number_of :
      (ip : Quad) (i : ℕ)
      → ip ≡ int_to_ip (host m.ip_allocator.network i)
      → ip_to_int ip ≡ host m.ip_allocator.network i
  number_of ip i e = rw e (ip_to_int-int_to_ip _ (host-lt m.ip_allocator.network i))

  at_once : CameAtOnce m iface → IsGood
  at_once (fine, other, ip) =
      let f = acquire-IsFresh m.ip_allocator v fine in
      let number = number_of _ f.at f.address in
      (
        f.at,
        f.is_host,
        ip ∙ f.address,
        f.was_free,
        λ one. absurd (
            false≢true (
              sym other
              ∙ (==_iff _ _).1 (ap (host m.ip_allocator.network) (sym one) ∙ sym number))),
      )

  again : CameAgain m iface → IsGood
  unfolding acquire
  again (fine, same, fine2, ip) =
      let f = acquire-IsFresh m.ip_allocator v fine in
      let g = acquire-IsFresh (acquire m.ip_allocator).1 (acquire-IsValid m.ip_allocator v) fine2 in
      let first = (==_iff _ _).0 same ∙ number_of _ f.at f.address in
      let (apart, unused) = or_false _ _ (sym (f.now_used _) ∙ g.was_free.1) in
      (
        g.at,
        g.is_host,
        ip ∙ g.address,
        (g.was_free.0, unused),
        λ one. absurd (
            false≢true (
              sym apart ∙ (==_iff _ _).1 (sym first ∙ ap (host m.ip_allocator.network) (sym one)))),
      )

-- Every interface that an enabled manager with a valid allocator hands out has a host address of
-- the network that was free, that is not the network's own, and that is not the first host
-- address.
allocate_address :
    (m : NetworkManager) (iface : NetworkInterface)
    → m.disabled ≡ false
    → IsValid m.ip_allocator
    → (allocate m).0 ≡ ok iface
    → (i : ℕ) × IsHost m.ip_allocator.network i
      × (iface.ip ≡ int_to_ip (host m.ip_allocator.network i))
      × IsFreeHost m.ip_allocator (host m.ip_allocator.network i)
      × (i ≢ 1)
allocate_address m iface on v e = elim (allocate_came m iface on e) [
  | inl c ↦ at_once m iface v c
  | inr c ↦ again m iface v c
]
