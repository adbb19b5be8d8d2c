-- ===== src/Network/PortAllocator.antt =====
-- `PortAllocator` of dotcloud/docker/network.go. The channel `fountain` has no buffer: the goroutine
-- `runFountain` stands before the send of `next`, and each receive moves it to the port after.
-- `Acquire` runs under the allocator's lock, but for its receives.
pub mod Fountain
pub mod Exclusion
use docker_stuff.Base.{
  ℕ, zero, suc, ◌+◌, ltb, ◌==◌, if◌then◌else◌, List, [], ◌∷◌, Option, none, some, contains, remove,
}

abbrev pub port_range_start : ℕ
port_range_start = 49153

abbrev pub port_range_end : ℕ
port_range_end = 65535

pub record PortAllocator : Type 0 where
  pub in_use : List ℕ
  pub next : ℕ

unfoldable pub new_port_allocator : PortAllocator
new_port_allocator = record { in_use = []; next = port_range_start }

-- The port after `p` in `runFountain`.
unfoldable pub after_port : ℕ → ℕ
after_port p = if ltb (p + 1) port_range_end then p + 1 else port_range_start

-- It cannot fail.
unfoldable pub release_port : ℕ → PortAllocator → PortAllocator
release_port port alloc = record alloc { in_use = remove alloc.in_use port }

-- The part of `Acquire` under the lock, for a port that is not 0; `none` is "Port already in use".
unfoldable pub acquire_port : ℕ → PortAllocator → Option ℕ × PortAllocator
acquire_port port alloc =
    if contains alloc.in_use port
    then (none, alloc)
    else (some port, record alloc { in_use = port ∷ alloc.in_use })

-- The loop over the fountain, with fuel: `none` is a loop that is still running. One that ends has
-- a port, since the fountain is never closed.
unfoldable pub from_fountain : ℕ → PortAllocator → Option (ℕ × PortAllocator)
from_fountain zero alloc = none
from_fountain (suc fuel) alloc =
    let (result, taken) = acquire_port alloc.next (record alloc { next = after_port alloc.next }) in
    elim result [ some port ↦ some (port, taken) | none ↦ from_fountain fuel taken ]

-- A result of `Acquire`: a port, or the error of a port that is in use.
abbrev pub Acquired : Type 0
Acquired = Option ℕ × PortAllocator

unfoldable pub acquire : ℕ → ℕ → PortAllocator → Option Acquired
acquire fuel port alloc =
    if port == 0
    then elim (from_fountain fuel alloc) [ some (p, taken) ↦ some (some p, taken) | none ↦ none ]
    else some (acquire_port port alloc)
