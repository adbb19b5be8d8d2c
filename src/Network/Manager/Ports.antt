-- ===== src/Network/Manager/Ports.antt =====
-- What `AllocatePort` does to the port allocators and the port mapper.
use docker_stuff.Base.{
  ℕ, ◌≡◌, inl, inr, refl, sym, ap, ◌∙◌, Bool, Option, none, some, Bytes, contains, Bool-cases,
  some_inj, if_true, if_false,
}
use mathlib.Core.Path.{subst}
use docker_stuff.Network.PortAllocator
use docker_stuff.Network.PortAllocator.{PortAllocator, release_port}
use docker_stuff.Network.PortAllocator.Fountain.{InFountain}
use docker_stuff.Network.PortAllocator.Exclusion.{acquire_refused, Owns, acquire-Owns, put_back}
use docker_stuff.Network.PortMapper.{Proto, tcp, udp, MapError, PortMapper, Outside}
use docker_stuff.Network.PortMapper.Laws.{other, same_or_other}
use docker_stuff.Network.NatSpec
use docker_stuff.Network.NatSpec.{Nat, NatResult, parse_nat}
use docker_stuff.Network.Manager.{
  NetworkManager, NetworkInterface, NetError, err, ports, put_ports, map_acquired, allocate_port,
  after_map, after_acquire, after_parse, Outcome, bad_spec, is_disabled,
}

pub ports-put_ports :
    (p : Proto) (a : PortAllocator) (m : NetworkManager) → ports p (put_ports p a m) ≡ a
unfolding ports put_ports
ports-put_ports tcp a m = refl
ports-put_ports udp a m = refl

pub ports-put_ports-other :
    (p : Proto) (a : PortAllocator) (m : NetworkManager)
    → ports (other p) (put_ports p a m) ≡ ports (other p) m
unfolding ports put_ports
ports-put_ports-other tcp a m = refl
ports-put_ports-other udp a m = refl

pub port_mapper-put_ports :
    (p : Proto) (a : PortAllocator) (m : NetworkManager)
    → (put_ports p a m).port_mapper ≡ m.port_mapper
unfolding put_ports
port_mapper-put_ports tcp a m = refl
port_mapper-put_ports udp a m = refl

pub ports-set_mapper :
    (p : Proto) (m : NetworkManager) (x : PortMapper)
    → ports p (record m { port_mapper = x }) ≡ ports p m
unfolding ports
ports-set_mapper tcp m x = refl
ports-set_mapper udp m x = refl

-- Which ports are in use.
abbrev pub used : NetworkManager → Proto → ℕ → Bool
used m p q = contains (ports p m).in_use q

abbrev pub IsErr : Outcome → Type 0
IsErr r = (e : NetError) × (r.0 ≡ err e)

-- The interface and the port allocators are as they were.
pub record IsUndone (iface : NetworkInterface) (m : NetworkManager) (r : Outcome) : Type 0 where
  pub same_interface : r.1 ≡ iface
  pub same_ports : (p : Proto) (q : ℕ) → used r.2 p q ≡ used m p q

used_after :
    (p p' : Proto) (a : PortAllocator) (m : NetworkManager)
    → ((q : ℕ) → contains a.in_use q ≡ used m p q)
    → (q : ℕ) → used (put_ports p a m) p' q ≡ used m p' q
used_after p p' a m same q = elim (same_or_other p p') [
  | inl e ↦ rw (e, ports-put_ports) (same q)
  | inr e ↦ rw (e, ports-put_ports-other)
]

-- What is released after a failed `Map` was free before it was acquired.
after_map-IsUndone :
    (nat : Nat) (ext_port : ℕ) (iface : NetworkInterface) (m n : NetworkManager)
    (failed : Option MapError)
    → ((q : ℕ) → contains (release_port ext_port (ports nat.proto n)).in_use q ≡ used m nat.proto q)
    → ((q : ℕ) → used n (other nat.proto) q ≡ used m (other nat.proto) q)
    → IsErr (after_map nat ext_port iface n failed)
    → IsUndone iface m (after_map nat ext_port iface n failed)
unfolding after_map
after_map-IsUndone nat ext_port iface m n none back rest e = absurd (cc (e.1))
after_map-IsUndone nat ext_port iface m n (some x) back rest e = record {
  same_interface = refl;
  same_ports = λ p q. elim (same_or_other nat.proto p) [
    | inl same ↦ rw (same, ports-put_ports) (back q)
    | inr differs ↦ rw (differs, ports-put_ports-other) (rest q)
  ];
}

module _ (outside : Outside) where
  map_acquired-IsUndone :
      (nat : Nat) (ext_port : ℕ) (iface : NetworkInterface) (m : NetworkManager)
      (taken : PortAllocator)
      → Owns (ports nat.proto m) ext_port taken
      → IsErr (map_acquired outside nat ext_port iface (put_ports nat.proto taken m))
      → IsUndone iface m (map_acquired outside nat ext_port iface (put_ports nat.proto taken m))
  unfolding map_acquired
  map_acquired-IsUndone nat ext_port iface m taken o e =
      after_map-IsUndone nat ext_port iface m _ _
        (λ q.
          rw (ports-set_mapper, ports-put_ports)
            (unfold release_port in
              put_back (ports nat.proto m).in_use taken.in_use ext_port q o.was_free
                (o.now_used q)))
        (λ q. rw (ports-set_mapper, ports-put_ports-other)) e

  after_acquire-IsUndone :
      (fuel : ℕ) (nat : Nat) (iface : NetworkInterface) (m : NetworkManager)
      (acquired : Option (Option ℕ × PortAllocator)) (r : Outcome)
      → InFountain (ports nat.proto m).next
      → PortAllocator.acquire fuel nat.frontend (ports nat.proto m) ≡ acquired
      → after_acquire outside nat iface m acquired ≡ some r
      → IsErr r
      → IsUndone iface m r
  unfolding after_acquire
  after_acquire-IsUndone fuel nat iface m none r h a e bad = cc
  after_acquire-IsUndone fuel nat iface m (some (none, taken)) r h a e bad =
      let same = acquire_refused fuel nat.frontend _ taken a in
      subst (IsUndone iface m) (some_inj e) (record {
        same_interface = refl;
        same_ports = λ p.
            used_after nat.proto p taken m
              (λ q. ap (λ (x : PortAllocator). contains x.in_use q) same);
      })
  after_acquire-IsUndone fuel nat iface m (some (some ext_port, taken)) r h a e bad =
      let same = some_inj e in
      subst (IsUndone iface m) same (
        map_acquired-IsUndone nat ext_port iface m taken
          (acquire-Owns fuel nat.frontend (ports nat.proto m) taken ext_port h a)
          (subst IsErr (sym same) bad))

  unchanged-IsUndone :
      (iface : NetworkInterface) (m : NetworkManager) (e : NetError)
      → IsUndone iface m (err e, iface, m)
  unchanged-IsUndone iface m e = record { same_interface = refl; same_ports = λ p q. refl }

  after_parse-IsUndone :
      (fuel : ℕ) (iface : NetworkInterface) (m : NetworkManager) (parsed : NatResult Nat)
      (r : Outcome)
      → ((p : Proto) → InFountain (ports p m).next)
      → after_parse outside fuel iface m parsed ≡ some r
      → IsErr r
      → IsUndone iface m r
  unfolding after_parse
  after_parse-IsUndone fuel iface m (NatSpec.err e) r h same bad =
      subst (IsUndone iface m) (some_inj same) (unchanged-IsUndone iface m (bad_spec e))
  after_parse-IsUndone fuel iface m (NatSpec.ok nat) r h same bad =
      after_acquire-IsUndone fuel nat iface m _ r (h nat.proto) refl same bad

  -- An AllocatePort that returns an error, on a manager whose fountains stand in their range,
  -- leaves the interface as it was and every port of both protocols in use or not as before.
  pub allocate_port-IsUndone :
      (fuel : ℕ) (spec : Bytes) (iface : NetworkInterface) (m : NetworkManager) (r : Outcome)
      → ((p : Proto) → InFountain (ports p m).next)
      → allocate_port outside fuel spec iface m ≡ some r
      → IsErr r
      → IsUndone iface m r
  unfolding allocate_port
  allocate_port-IsUndone fuel spec iface m r h e bad = elim (Bool-cases iface.disabled) [
    | inl off ↦
        subst (IsUndone iface m) (some_inj (sym (if_true _ _ off) ∙ e))
          (unchanged-IsUndone iface m is_disabled)
    | inr on ↦
        after_parse-IsUndone fuel iface m (parse_nat spec) r h (sym (if_false _ _ on) ∙ e) bad
  ]
