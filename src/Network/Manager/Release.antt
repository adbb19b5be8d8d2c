-- ===== src/Network/Manager/Release.antt =====
-- What `NetworkInterface.Release` gives back.
use docker_stuff.Base.{
  ℕ, ◌==◌, if◌then◌else◌, ◌≡◌, inl, inr, refl, ap, ◌∙◌, Bool, true, false, ◌||◌, ◌&&◌, List, [],
  ◌∷◌, contains, arith, if_false, contains-remove,
}
use docker_stuff.Network.IpAllocator
use docker_stuff.Network.PortAllocator.{PortAllocator, release_port}
use docker_stuff.Network.PortMapper.{eq_proto, Proto, tcp, udp, Outside}
use docker_stuff.Network.PortMapper.Laws.{other, same_or_other}
use docker_stuff.Network.NatSpec.{Nat}
use docker_stuff.Network.Manager.{
  NetworkManager, NetworkInterface, ports, put_ports, release_nat, release_nats, release,
}
use docker_stuff.Network.Manager.Ports.{
  used, ports-put_ports, ports-put_ports-other, ports-set_mapper,
}

-- One of the mappings has this external port.
abbrev pub owns : List Nat → Proto → ℕ → Bool
owns [] p q = false
owns (nat ∷ nats) p q = eq_proto nat.proto p && nat.frontend == q || owns nats p q

eq_proto_refl : (p : Proto) → eq_proto p p ≡ true
eq_proto_refl tcp = refl
eq_proto_refl udp = refl

eq_proto-other : (p : Proto) → eq_proto p (other p) ≡ false
eq_proto-other tcp = refl
eq_proto-other udp = refl

ip-put_ports :
    (p : Proto) (a : PortAllocator) (m : NetworkManager)
    → (put_ports p a m).ip_allocator ≡ m.ip_allocator
unfolding put_ports
ip-put_ports tcp a m = refl
ip-put_ports udp a m = refl

module _ (outside : Outside) where
  release_nat-used :
      (nat : Nat) (m : NetworkManager) (p : Proto) (q : ℕ)
      → used (release_nat outside nat m) p q
        ≡ (if eq_proto nat.proto p && nat.frontend == q then false else used m p q)
  unfolding release_nat release_port
  release_nat-used nat m p q = elim (same_or_other nat.proto p) [
    | inl e ↦
        rw (e, ports-put_ports, ports-set_mapper, eq_proto_refl)
          (contains-remove (ports nat.proto m).in_use nat.frontend q)
    | inr e ↦ rw (e, ports-put_ports-other, ports-set_mapper, eq_proto-other)
  ]

  release_nats-used :
      (nats : List Nat) (m : NetworkManager) (p : Proto) (q : ℕ)
      → used (release_nats outside nats m) p q ≡ (if owns nats p q then false else used m p q)
  unfolding release_nats
  release_nats-used [] m p q = refl
  release_nats-used (nat ∷ nats) m p q =
      ground
        (arith, release_nats-used nats (release_nat outside nat m) p q, release_nat-used nat m p q)

  ports-set_ip :
      (p : Proto) (m : NetworkManager) (a : IpAllocator.IpAllocator)
      → ports p (record m { ip_allocator = a }) ≡ ports p m
  unfolding ports
  ports-set_ip tcp m a = refl
  ports-set_ip udp m a = refl

  release_nat-ip :
      (nat : Nat) (m : NetworkManager) → (release_nat outside nat m).ip_allocator ≡ m.ip_allocator
  unfolding release_nat
  release_nat-ip nat m = ip-put_ports nat.proto _ _

  release_nats-ip :
      (nats : List Nat) (m : NetworkManager)
      → (release_nats outside nats m).ip_allocator ≡ m.ip_allocator
  unfolding release_nats
  release_nats-ip [] m = refl
  release_nats-ip (nat ∷ nats) m =
      release_nats-ip nats (release_nat outside nat m) ∙ release_nat-ip nat m

  release_enabled :
      (iface : NetworkInterface) (m : NetworkManager)
      → iface.disabled ≡ false
      → release outside iface m ≡ record (release_nats outside iface.ext_ports m) {
        ip_allocator =
            IpAllocator.release iface.ip (release_nats outside iface.ext_ports m).ip_allocator;
      }
  unfolding release
  release_enabled iface m on = if_false _ _ on

  -- Release of an interface that is not disabled frees the external ports of all its mappings,
  -- each in its protocol, leaves every other port in use or not as it was, and gives the address
  -- back to the allocator.
  pub release-used :
      (iface : NetworkInterface) (m : NetworkManager)
      → iface.disabled ≡ false
      → ((p : Proto) (q : ℕ)
          → used (release outside iface m) p q
            ≡ (if owns iface.ext_ports p q then false else used m p q))
        × ((release outside iface m).ip_allocator ≡ IpAllocator.release iface.ip m.ip_allocator)
  release-used iface m on =
      let ran = release_enabled iface m on in
      (
        λ p q.
            ap (λ (n : NetworkManager). used n p q) ran
            ∙ ap (λ (a : PortAllocator). contains a.in_use q)
                (ports-set_ip p (release_nats outside iface.ext_ports m) _)
            ∙ release_nats-used iface.ext_ports m p q,
        ap (λ (n : NetworkManager). n.ip_allocator) ran
            ∙ ap (IpAllocator.release iface.ip) (release_nats-ip iface.ext_ports m),
      )
