-- ===== src/Network/IpAllocator/Tiny.antt =====
-- Networks of one and of two addresses, where the search of the allocator makes no attempt.
use docker_stuff.Base.{◌≡◌, ◌⊎◌, inl, inr, refl, ap, false}
use docker_stuff.Network.Ip.{Quad, IpNet, network_size, int_to_ip}
use docker_stuff.Network.Ip.Overlap.{cidr_mask}
use docker_stuff.Network.IpAllocator.{IpAllocator, max_pos, rounds, search, prepare, acquire}

no_rounds : (n : IpNet) → (n.mask ≡ cidr_mask 31) ⊎ (n.mask ≡ cidr_mask 32) → rounds (max_pos n) ≡ 0
unfolding rounds max_pos network_size int_to_ip
no_rounds n (inl e) = ap (λ (m : Quad). rounds (max_pos (record { ip = n.ip; mask = m }))) e
no_rounds n (inr e) = ap (λ (m : Quad). rounds (max_pos (record { ip = n.ip; mask = m }))) e

-- On every network whose mask is that of a prefix of 31 or of 32 bits, Acquire gives the address
-- 0.0.0.0 without an error, whatever is in use.
pub acquire_tiny :
    (a : IpAllocator)
    → (a.network.mask ≡ cidr_mask 31) ⊎ (a.network.mask ≡ cidr_mask 32)
    → (acquire a).0 ≡ record { ip = int_to_ip 0; failed = false }
unfolding acquire prepare search
acquire_tiny a h = rw (no_rounds a.network h) refl
