-- ===== src/Network/Manager.antt =====
-- `NetworkManager` and `NetworkInterface` of dotcloud/docker/network.go. A method of an interface
-- takes the interface and the manager that it points to, and returns both.
pub mod Ports
pub mod Release
pub mod Addresses
use docker_stuff.Base.{
  ℕ, ◌+◌, ◌%◌, ◌^◌, ◌==◌, if◌then◌else◌, Bool, true, false, List, [], ◌∷◌, ◌++◌, Option, none, some,
  Bytes,
}
use docker_stuff.Network.Ip.{Quad, IpNet, ip_to_int}
use docker_stuff.Network.IpAllocator
use docker_stuff.Network.IpAllocator.{IpAllocator, ip_num}
use docker_stuff.Network.PortAllocator
use docker_stuff.Network.PortAllocator.{PortAllocator, release_port}
use docker_stuff.Network.PortMapper.{
  Proto, tcp, udp, Backend, MapError, PortMapper, Outside, unmap, map_port,
}
use docker_stuff.Network.NatSpec
use docker_stuff.Network.NatSpec.{Nat, NatError, NatResult, parse_nat}

pub record NetworkManager : Type 0 where
  pub bridge_network : IpNet
  pub ip_allocator : IpAllocator
  pub tcp_ports : PortAllocator
  pub udp_ports : PortAllocator
  pub port_mapper : PortMapper
  pub disabled : Bool

-- The `IPNet` of the source is the address and the mask; its pointer to the manager is left out.
pub record NetworkInterface : Type 0 where
  pub ip : Quad
  pub mask : Quad
  pub gateway : Quad
  pub ext_ports : List Nat
  pub disabled : Bool

pub data NetError : Type 0 where
  is_disabled : NetError
  bad_spec : NatError → NetError
  port_in_use : NetError
  map_failed : MapError → NetError
  no_ip : NetError

pub data NetResult {ℓ} (A : Type ℓ) : Type ℓ where
  ok : A → NetResult A
  err : NetError → NetResult A

unfoldable pub ports : Proto → NetworkManager → PortAllocator
ports tcp m = m.tcp_ports
ports udp m = m.udp_ports

unfoldable pub put_ports : Proto → PortAllocator → NetworkManager → NetworkManager
put_ports tcp a m = record m { tcp_ports = a }
put_ports udp a m = record m { udp_ports = a }

abbrev pub Net : Type 0
Net = NetworkInterface × NetworkManager

abbrev pub Outcome : Type 0
Outcome = NetResult Nat × NetworkInterface × NetworkManager

-- The end of `AllocatePort`, after `Map` with its error.
unfoldable pub after_map : Nat → ℕ → NetworkInterface → NetworkManager → Option MapError → Outcome
after_map nat ext_port iface m (some e) =
    (err (map_failed e), iface, put_ports nat.proto (release_port ext_port (ports nat.proto m)) m)
after_map nat ext_port iface m none =
    let mapped = record nat { frontend = ext_port } in
    (ok mapped, record iface { ext_ports = iface.ext_ports ++ mapped ∷ [] }, m)

module _ (outside : Outside) where
  unfoldable pub map_acquired : Nat → ℕ → NetworkInterface → NetworkManager → Outcome
  map_acquired nat ext_port iface m =
      let backend : Backend = record { ip = iface.ip; port = nat.backend } in
      let (failed, mapper) = map_port outside ext_port nat.proto backend m.port_mapper in
      after_map nat ext_port iface (record m { port_mapper = mapper }) failed

  -- After `Acquire`; `none` is a call that has not returned, for it is still at the fountain.
  unfoldable pub after_acquire :
      Nat → NetworkInterface → NetworkManager → Option (Option ℕ × PortAllocator) → Option Outcome
  after_acquire nat iface m none = none
  after_acquire nat iface m (some (none, taken)) =
      some (err port_in_use, iface, put_ports nat.proto taken m)
  after_acquire nat iface m (some (some ext_port, taken)) =
      some (map_acquired nat ext_port iface (put_ports nat.proto taken m))

  unfoldable pub after_parse :
      ℕ → NetworkInterface → NetworkManager → NatResult Nat → Option Outcome
  after_parse fuel iface m (NatSpec.err e) = some (err (bad_spec e), iface, m)
  after_parse fuel iface m (NatSpec.ok nat) =
      after_acquire nat iface m (PortAllocator.acquire fuel nat.frontend (ports nat.proto m))

  unfoldable pub allocate_port : ℕ → Bytes → NetworkInterface → NetworkManager → Option Outcome
  allocate_port fuel spec iface m =
      if iface.disabled
      then some (err is_disabled, iface, m)
      else after_parse fuel iface m (parse_nat spec)

  -- One round of the loop of `Release`: its errors are logged.
  unfoldable pub release_nat : Nat → NetworkManager → NetworkManager
  release_nat nat m =
      let m' = record m { port_mapper = (unmap outside nat.frontend nat.proto m.port_mapper).1 } in
      put_ports nat.proto (release_port nat.frontend (ports nat.proto m')) m'

  unfoldable pub release_nats : List Nat → NetworkManager → NetworkManager
  release_nats [] m = m
  release_nats (nat ∷ nats) m = release_nats nats (release_nat nat m)

  unfoldable pub release : NetworkInterface → NetworkManager → NetworkManager
  release iface m =
      let m' = release_nats iface.ext_ports m in
      if iface.disabled
      then m
      else record m' { ip_allocator = IpAllocator.release iface.ip m'.ip_allocator }

abbrev disabled_interface : NetworkInterface
disabled_interface =
    let zero_ip : Quad = record { b0 = 0; b1 = 0; b2 = 0; b3 = 0 } in
    record { ip = zero_ip; mask = zero_ip; gateway = zero_ip; ext_ports = []; disabled = true }

-- `NetworkManager.Allocate`: an address with the number of the first host is acquired and left.
unfoldable pub allocate : NetworkManager → NetResult NetworkInterface × NetworkManager
allocate m =
    let (first, a1) = IpAllocator.acquire m.ip_allocator in
    let (second, a2) = IpAllocator.acquire a1 in
    let interface : Quad → NetworkInterface = λ ip. record {
      ip = ip;
      mask = m.bridge_network.mask;
      gateway = m.bridge_network.ip;
      ext_ports = [];
      disabled = false;
    } in
    let first_num = (ip_num m.ip_allocator.network + 1) % 2 ^ 32 in
    if m.disabled
    then (ok disabled_interface, m)
    else if first.failed
    then (err no_ip, record m { ip_allocator = a1 })
    else if first_num == ip_to_int first.ip
    then (if second.failed
        then (err no_ip, record m { ip_allocator = a2 })
        else (ok (interface second.ip), record m { ip_allocator = a2 }))
    else (ok (interface first.ip), record m { ip_allocator = a1 })
