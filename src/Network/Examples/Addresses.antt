-- ===== src/Network/Examples/Addresses.antt =====
-- Concrete networks, and the address allocator on them.
use docker_stuff.Base.{ℕ, ◌+◌, ◌≢◌, ◌≡◌, inr, ◌↔◌, refl, true, false, [], ◌∷◌, contains, arith}
use docker_stuff.Network.Ip.{
  Quad, IpNet, IsIpNet, network_range, network_size, ip_to_int, int_to_ip, and_quad,
}
use docker_stuff.Network.Ip.Overlap.{cidr_mask}
use docker_stuff.Network.IpAllocator.{
  IpAllocator, ip_num, own_ip, max_pos, rounds, rem_int32, search, prepare, acquire,
  new_ip_allocator,
}
use docker_stuff.Network.IpAllocator.Offers.{
  IsValid, IsHost, IsTakenHost, IsFresh, host, acquire-IsFresh, acquire_failed_iff,
}
use docker_stuff.Network.IpAllocator.Tiny.{acquire_tiny}
use docker_stuff.Network.IpAllocator.Clients.{
  System, acquired, Reach, start, next, Distinct, IsLease, AllHeld, clients_share,
}

-- The gateway 10.0.0.1 of a network of eight addresses.
abbrev pub gateway_ip : Quad
gateway_ip = record { b0 = 10; b1 = 0; b2 = 0; b3 = 1 }

abbrev pub small_net : IpNet
small_net = record { ip = gateway_ip; mask = record { b0 = 255; b1 = 255; b2 = 255; b3 = 248 } }

abbrev wide_net : IpNet
wide_net = record { ip = gateway_ip; mask = record { b0 = 255; b1 = 0; b2 = 0; b3 = 0 } }

pub small_net-IsIpNet : IsIpNet small_net
small_net-IsIpNet = record { ip_fits = omega arith; mask_fits = omega arith }

mask29 : small_net.mask ≡ cidr_mask 29
unfolding int_to_ip
mask29 = refl

mask8 : wide_net.mask ≡ cidr_mask 8
unfolding int_to_ip
mask8 = refl

abbrev first_num : ℕ
first_num = 167772160

-- One address is in use, and the search stands before it.
abbrev pub used_alloc : IpAllocator
used_alloc = record { network = small_net; in_use = (first_num + 2) ∷ []; pos = 2 }

-- All six addresses but the gateway's are in use.
abbrev full_alloc : IpAllocator
full_alloc = record {
  network = small_net;
  in_use =
      (first_num + 2) ∷ (first_num + 3) ∷ (first_num + 4) ∷ (first_num + 5) ∷ (first_num + 6) ∷ [];
  pos = 2;
}

max_pos_small : max_pos small_net ≡ 6
unfolding max_pos network_size
max_pos_small = refl

pub used_alloc-IsValid : IsValid used_alloc
used_alloc-IsValid = record {
  fits = small_net-IsIpNet;
  two = omega (arith, max_pos_small);
  small = omega (arith, max_pos_small);
  pos_ok = (omega arith, omega (arith, max_pos_small));
}

full_alloc-IsValid : IsValid full_alloc
full_alloc-IsValid = record {
  fits = small_net-IsIpNet;
  two = omega (arith, max_pos_small);
  small = omega (arith, max_pos_small);
  pos_ok = (omega arith, omega (arith, max_pos_small));
}

used_alloc_offers : (acquire used_alloc).0.failed ≡ false
unfolding acquire prepare search rounds rem_int32 max_pos own_ip ip_num network_range and_quad
    ip_to_int network_size contains
used_alloc_offers = refl

acquire-IsFresh_example : IsFresh used_alloc (acquire used_alloc).0 (acquire used_alloc).1
acquire-IsFresh_example = acquire-IsFresh used_alloc used_alloc-IsValid used_alloc_offers

acquire_failed_iff_example :
    ((acquire full_alloc).0.failed ≡ true)
    ↔ ((i : ℕ) → IsHost full_alloc.network i → IsTakenHost full_alloc (host full_alloc.network i))
acquire_failed_iff_example = acquire_failed_iff full_alloc full_alloc-IsValid

full_host : host small_net 3 ≢ own_ip small_net
unfolding own_ip ip_num network_range and_quad ip_to_int
full_host = ground arith

-- A client acquires an address.
abbrev fresh_alloc : IpAllocator
unfolding new_ip_allocator
fresh_alloc = new_ip_allocator small_net

fresh_alloc_offers : (acquire fresh_alloc).0.failed ≡ false
unfolding acquire prepare search rounds rem_int32 max_pos own_ip ip_num network_range and_quad
    ip_to_int network_size new_ip_allocator contains
fresh_alloc_offers = refl

abbrev one_client : System
one_client = record {
  alloc = (acquire fresh_alloc).1;
  held = ip_to_int (acquire fresh_alloc).0.ip ∷ [];
}

one_client-Reach : Reach small_net one_client
unfolding new_ip_allocator
one_client-Reach =
    next start (acquired (record { alloc = fresh_alloc; held = [] }) fresh_alloc_offers)

clients_share_example :
    Distinct one_client.held
    × ((x : ℕ) → contains one_client.held x ≡ true → IsLease small_net x)
    × (((acquire one_client.alloc).0.failed ≡ true) ↔ AllHeld small_net one_client.held)
clients_share_example =
    clients_share small_net one_client small_net-IsIpNet (omega (arith, max_pos_small))
      (omega (arith, max_pos_small)) one_client-Reach

-- A network of one address.
abbrev one_address : IpAllocator
one_address = record {
  network = record { ip = gateway_ip; mask = record { b0 = 255; b1 = 255; b2 = 255; b3 = 255 } };
  in_use = [];
  pos = 1;
}

one_address-mask : one_address.network.mask ≡ cidr_mask 32
unfolding int_to_ip
one_address-mask = refl

acquire_tiny_example : (acquire one_address).0 ≡ record { ip = int_to_ip 0; failed = false }
acquire_tiny_example = acquire_tiny one_address (inr one_address-mask)
