-- ===== src/Network/IpAllocator.antt =====
-- `IPAllocator` of dotcloud/docker/network.go. The goroutine `run` is a loop that prepares an
-- offer (`prepare`, the search for an unused address) and then serves whichever client comes first:
-- one that receives the offer (`acquire`) or one that sends an address back (`release`). The state
-- is what survives a round: the map `inUse` and the variable `pos`. Numbers are the bit patterns of
-- `int32`.
pub mod Positions
pub mod Search
pub mod Offers
pub mod Releases
pub mod Clients
pub mod Tiny
use docker_stuff.Base.{
  ℕ, zero, suc, ◌+◌, ◌-◌, ◌%◌, ◌^◌, ltb, ◌==◌, if◌then◌else◌, Bool, true, false, List, [], contains,
  insert, remove,
}
use docker_stuff.Network.Ip.{Quad, IpNet, network_range, ip_to_int, int_to_ip, network_size}

pub record IpAllocator : Type 0 where
  pub network : IpNet
  pub in_use : List ℕ
  pub pos : ℕ

-- The local constants of `run`.
unfoldable pub ip_num : IpNet → ℕ
ip_num n = ip_to_int (network_range n).0

unfoldable pub own_ip : IpNet → ℕ
own_ip n = ip_to_int n.ip

-- Without the broadcast address and the gateway.
unfoldable pub max_pos : IpNet → ℕ
max_pos n = (network_size n.mask + 2 ^ 32 - 2) % 2 ^ 32

-- Go's `%` on `int32`, for a positive divisor: the sign of the result is that of `a`.
unfoldable pub rem_int32 : ℕ → ℕ → ℕ
rem_int32 a m = if ltb a (2 ^ 31) then a % m else (2 ^ 32 - (2 ^ 32 - a) % m) % 2 ^ 32

-- `for attempt := int32(0); attempt < max; attempt++` makes no round if `max` is negative.
unfoldable pub rounds : ℕ → ℕ
rounds max = if ltb max (2 ^ 31) then max else 0

-- What one pass of the search leaves in the variables `pos`, `newNum` and `inUse`.
pub record Offer : Type 0 where
  pub next_pos : ℕ
  pub new_num : ℕ
  pub exhausted : Bool

module _ (base own max : ℕ) (used : List ℕ) where
  unfoldable pub search : ℕ → Offer → Offer
  search zero o = o
  search (suc left) o =
      let new = (base + o.next_pos) % 2 ^ 32 in
      let pos = (rem_int32 o.next_pos max + 1) % 2 ^ 32 in
      let skip = search left (record { next_pos = pos; new_num = new; exhausted = o.exhausted }) in
      let again = search left (record { next_pos = pos; new_num = new; exhausted = true }) in
      let found : Offer = record { next_pos = pos; new_num = new; exhausted = false } in
      if new == own then skip else if contains used new then again else found

unfoldable pub prepare : IpAllocator → Offer
prepare a =
    let max = max_pos a.network in
    search (ip_num a.network) (own_ip a.network) max a.in_use (rounds max)
      (record { next_pos = a.pos; new_num = 0; exhausted = false })

-- The result of `Acquire`: an address, and whether the error "No unallocated IP available" is set.
pub record AllocatedIp : Type 0 where
  pub ip : Quad
  pub failed : Bool

-- `case alloc.queueAlloc <- ip`
unfoldable pub acquire : IpAllocator → AllocatedIp × IpAllocator
acquire a =
    let o = prepare a in
    (
      record { ip = int_to_ip o.new_num; failed = o.exhausted },
      record a { in_use = insert a.in_use o.new_num; pos = o.next_pos },
    )

-- `case released := <-alloc.queueReleased`
unfoldable pub release : Quad → IpAllocator → IpAllocator
release released a =
    let o = prepare a in
    let r = ip_to_int released in
    let pos =
      if o.exhausted
      then (r + 2 ^ 32 - ip_num a.network) % 2 ^ 32
      else if o.next_pos == 1
      then max_pos a.network
      else (o.next_pos + 2 ^ 32 - 1) % 2 ^ 32 in
    record a { in_use = remove a.in_use r; pos = pos }

unfoldable pub new_ip_allocator : IpNet → IpAllocator
new_ip_allocator n = record { network = n; in_use = []; pos = 1 }
