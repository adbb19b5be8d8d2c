-- ===== src/Network/Examples/Mappings.antt =====
-- Ports and mappings: the port allocator with a part of its range and all of it in use, port
-- mappings whose proxy cannot be opened, and interfaces of a manager.
use docker_stuff.Base.{
  ℕ, zero, suc, ◌+◌, ◌^◌, ◌≤◌, ◌<◌, if◌then◌else◌, ◌≡◌, ◌≢◌, refl, true, false, List, [], ◌∷◌,
  Option, none, some, codes, contains, contains-cons, arith,
}
use docker_stuff.Text.Decimal.{parse_uint, all_digits, is_digit, value_from}
use docker_stuff.Text.Split.{split, cut, contains_byte, eq_bytes}
use docker_stuff.Network.Ip.{int_to_ip, ip_to_int, network_range, and_quad, network_size}
use docker_stuff.Network.IpAllocator
use docker_stuff.Network.IpAllocator.{acquire}
use docker_stuff.Network.PortAllocator
use docker_stuff.Network.PortAllocator.{
  PortAllocator, new_port_allocator, acquire_port, release_port, after_port,
}
use docker_stuff.Network.PortAllocator.Fountain.{InFountain, fountain_size}
use docker_stuff.Network.PortAllocator.Exclusion.{acquire_stuck, acquire_exclusive}
use docker_stuff.Network.PortMapper.{
  Proto, tcp, udp, Backend, open_proxy, PortMapper, Half, half, put_half, Outside, lookup, delete,
  assign, unmap, map_port, proxy_failed,
}
use docker_stuff.Network.PortMapper.Laws.{mapped, proxied, unmap-map_port}
use docker_stuff.Network.NatSpec
use docker_stuff.Network.NatSpec.{
  Nat, parse_nat, parse_port, parse_proto, take_proto, take_ports, proto_of_parts, ports_of_parts,
  front_back,
}
use docker_stuff.Network.NatSpec.RoundTrip.{print_nat, parse_nat-print_nat, parse_nat-lt}
use docker_stuff.Network.Manager.{
  NetworkManager, NetworkInterface, ok, err, map_failed, Outcome, ports, allocate_port, after_map,
  map_acquired, after_acquire, after_parse, release, allocate,
}
use docker_stuff.Network.Manager.Ports.{IsErr, IsUndone, allocate_port-IsUndone, used}
use docker_stuff.Network.Manager.Release.{owns, release-used}
use docker_stuff.Network.Examples.Addresses.{small_net, used_alloc, gateway_ip}

-- The port at the front of the fountain is in use.
abbrev busy_ports : PortAllocator
busy_ports = record { in_use = 49153 ∷ []; next = 49153 }

one_free : contains busy_ports.in_use 49154 ≡ false
unfolding contains
one_free = refl

-- The `n` ports from `p` on.
run_of : ℕ → ℕ → List ℕ
run_of zero p = []
run_of (suc n) p = p ∷ run_of n (p + 1)

contains-run_of : (n p q : ℕ) → p ≤ q → q < p + n → contains (run_of n p) q ≡ true
unfolding run_of
contains-run_of zero p q h lt = absurd (omega arith)
contains-run_of (suc n) p q h lt =
    ground (arith, contains-cons (run_of n (p + 1)) p q, contains-run_of n (p + 1) q)

all_ports : PortAllocator
all_ports = record { in_use = run_of fountain_size 49153; next = 49153 }

all_ports-full : (q : ℕ) → InFountain q → contains all_ports.in_use q ≡ true
unfolding all_ports
all_ports-full q h = contains-run_of fountain_size 49153 q h.0 (omega arith)

all_ports-next : InFountain all_ports.next
unfolding all_ports
all_ports-next = (omega arith, omega arith)

acquire_stuck_example : PortAllocator.acquire 100000 0 all_ports ≡ none
acquire_stuck_example = acquire_stuck 100000 all_ports all_ports-next all_ports-full

abbrev web_ports : PortAllocator
web_ports = record { in_use = 80 ∷ 49153 ∷ []; next = 49153 }

acquire_web : PortAllocator.acquire 1 80 busy_ports ≡ some (some 80, web_ports)
unfolding PortAllocator.acquire acquire_port contains
acquire_web = refl

acquire_exclusive_example :
    (PortAllocator.acquire 1 80 web_ports ≡ some (none, web_ports))
    × ((q : ℕ) → contains (release_port 80 web_ports).in_use q ≡ contains busy_ports.in_use q)
acquire_exclusive_example =
    acquire_exclusive 1 80 busy_ports web_ports 80 (omega arith, omega arith) acquire_web

-- Every call succeeds, or all but the opening of a proxy.
abbrev all_well : Outside
all_well calls c = true

abbrev no_proxies : Outside
no_proxies calls (open_proxy proto port backend) = false
no_proxies calls c = true

abbrev web_backend : Backend
web_backend = record { ip = gateway_ip; port = 8080 }

abbrev no_mappings : PortMapper
no_mappings =
    let empty : Half = record { mapping = []; proxies = [] } in
    record { tcp_half = empty; udp_half = empty; calls = [] }

no_web : mapped no_mappings tcp 80 ≡ none
unfolding lookup half
no_web = refl

no_web_proxy : proxied no_mappings tcp 80 ≡ none
unfolding lookup half
no_web_proxy = refl

web_fails : (map_port no_proxies 80 tcp web_backend no_mappings).0 ≢ none
unfolding map_port half put_half
web_fails e = cc

web_mapped : (map_port all_well 80 tcp web_backend no_mappings).0 ≡ none
unfolding map_port half put_half
web_mapped = refl

web_unmapped : (unmap all_well 80 tcp (map_port all_well 80 tcp web_backend no_mappings).1).0 ≡ none
unfolding map_port unmap half put_half lookup assign delete
web_unmapped = refl

unmap-map_port_example :
    (mapped (unmap all_well 80 tcp (map_port all_well 80 tcp web_backend no_mappings).1).1 tcp 80
      ≡ mapped no_mappings tcp 80)
    × (proxied (unmap all_well 80 tcp (map_port all_well 80 tcp web_backend no_mappings).1).1 tcp 80
        ≡ proxied no_mappings tcp 80)
unmap-map_port_example =
    unmap-map_port all_well 80 tcp web_backend no_mappings no_web no_web_proxy web_mapped
      web_unmapped tcp 80

abbrev web_nat : Nat
web_nat = record { proto = udp; frontend = 80; backend = 8080 }

parse_nat-print_nat_example : parse_nat (print_nat web_nat) ≡ NatSpec.ok web_nat
parse_nat-print_nat_example = parse_nat-print_nat web_nat (omega arith) (omega arith)

abbrev manager : NetworkManager
manager = record {
  bridge_network = small_net;
  ip_allocator = used_alloc;
  tcp_ports = busy_ports;
  udp_ports = busy_ports;
  port_mapper = no_mappings;
  disabled = false;
}

abbrev interface : NetworkInterface
interface = record {
  ip = record { b0 = 10; b1 = 0; b2 = 0; b3 = 2 };
  mask = small_net.mask;
  gateway = gateway_ip;
  ext_ports = web_nat ∷ [];
  disabled = false;
}

abbrev default_to : Outcome → Option Outcome → Outcome
default_to d none = d
default_to d (some r) = r

-- The port is acquired, and the proxy cannot be opened.
abbrev web_run : Outcome
web_run =
    default_to (err (map_failed proxy_failed), interface, manager)
      (allocate_port no_proxies 1 (codes "80:8080") interface manager)

web_run_ends : allocate_port no_proxies 1 (codes "80:8080") interface manager ≡ some web_run
unfolding allocate_port after_parse parse_nat take_proto take_ports ports_of_parts front_back
    parse_port parse_uint all_digits is_digit value_from split cut contains_byte after_acquire
    PortAllocator.acquire acquire_port map_acquired map_port after_map contains ports
web_run_ends = refl

web_run-IsErr : IsErr web_run
unfolding allocate_port after_parse parse_nat take_proto take_ports ports_of_parts front_back
    parse_port parse_uint all_digits is_digit value_from split cut contains_byte after_acquire
    PortAllocator.acquire acquire_port map_acquired map_port after_map contains ports
web_run-IsErr = (map_failed proxy_failed, refl)

manager-fountain : (p : Proto) → InFountain (ports p manager).next
unfolding ports
manager-fountain tcp = (omega arith, omega arith)
manager-fountain udp = (omega arith, omega arith)

allocate_port-IsUndone_example : IsUndone interface manager web_run
allocate_port-IsUndone_example =
    allocate_port-IsUndone no_proxies 1 (codes "80:8080") interface manager web_run manager-fountain
      web_run_ends web_run-IsErr

release-used_example :
    ((p : Proto) (q : ℕ)
      → used (release all_well interface manager) p q
        ≡ (if owns interface.ext_ports p q then false else used manager p q))
    × ((release all_well interface manager).ip_allocator
        ≡ IpAllocator.release interface.ip used_alloc)
release-used_example = release-used all_well interface manager refl

abbrev next_interface : NetworkInterface
next_interface = record {
  ip = record { b0 = 10; b1 = 0; b2 = 0; b3 = 3 };
  mask = small_net.mask;
  gateway = gateway_ip;
  ext_ports = [];
  disabled = false;
}

next_interface-allocated : (allocate manager).0 ≡ ok next_interface
unfolding allocate IpAllocator.acquire IpAllocator.prepare IpAllocator.search IpAllocator.rounds
    IpAllocator.rem_int32 IpAllocator.max_pos IpAllocator.own_ip IpAllocator.ip_num network_range
    and_quad ip_to_int int_to_ip network_size contains
next_interface-allocated = refl

web_nat-parsed : parse_nat (codes "80:8080/udp") ≡ NatSpec.ok web_nat
unfolding parse_nat take_proto proto_of_parts parse_proto take_ports ports_of_parts front_back
    parse_port parse_uint all_digits is_digit value_from split cut contains_byte eq_bytes
web_nat-parsed = refl

parse_nat-lt_example : (80 < 2 ^ 16) × (8080 < 2 ^ 16)
parse_nat-lt_example = parse_nat-lt (codes "80:8080/udp") web_nat web_nat-parsed
