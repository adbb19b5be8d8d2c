-- ===== src/Network/PortMapper.antt =====
-- `PortMapper` of dotcloud/docker/network.go: DNAT rules in the kernel and userland proxies, with
-- the maps that record them. The command `iptables` and the sockets of a proxy are outside of the
-- program: whether a call succeeds is a parameter, and may depend on the calls made so far.
-- The TCP and the UDP half of the code are the same text over two pairs of maps.
pub mod Laws
use docker_stuff.Base.{
  ℕ, ◌==◌, if◌then◌else◌, Bool, true, false, List, [], ◌∷◌, ◌++◌, Option, none, some,
}
use docker_stuff.Network.Ip.{Quad}

pub data Proto : Type 0 where
  tcp udp : Proto

-- `==` on the names of protocols
abbrev pub eq_proto : Proto → Proto → Bool
eq_proto tcp tcp = true
eq_proto tcp udp = false
eq_proto udp tcp = false
eq_proto udp udp = true

-- `net.TCPAddr` or `net.UDPAddr`, the backend of a mapping. Which of the two it is, the dynamic type
-- of a `net.Addr`, is a `Proto` beside it.
pub record Backend : Type 0 where
  pub ip : Quad
  pub port : ℕ

-- The calls of `iptables`: those of `cleanup` and `setup`, and the two of `iptablesForward`.
pub data Call : Type 0 where
  -- the rules of five versions that jump to the chain
  delete_jump : ℕ → Call
  flush_chain : Call
  delete_chain : Call
  new_chain : Call
  add_jump_prerouting : Call
  add_jump_output : Call
  forward_add : Proto → ℕ → Backend → Call
  forward_delete : Proto → ℕ → Backend → Call
  -- not of `iptables`: `NewProxy` binds a socket
  open_proxy : Proto → ℕ → Backend → Call

pub data MapError : Type 0 where
  iptables_failed : MapError
  proxy_failed : MapError
  not_mapped : MapError
  setup_failed : MapError

-- Go's `map[int]V` as an association list with one entry for a key.
module _ {ℓ} {V : Type ℓ} where
  unfoldable pub lookup : ℕ → List (ℕ × V) → Option V
  lookup k [] = none
  lookup k ((j, v) ∷ m) = if j == k then some v else lookup k m

  unfoldable pub delete : ℕ → List (ℕ × V) → List (ℕ × V)
  delete k [] = []
  delete k ((j, v) ∷ m) = let rest = delete k m in if j == k then rest else (j, v) ∷ rest

  unfoldable pub assign : ℕ → V → List (ℕ × V) → List (ℕ × V)
  unfolding delete
  assign k v m = (k, v) ∷ delete k m

-- The maps of one protocol. A proxy is known by its backend.
pub record Half : Type 0 where
  pub mapping : List (ℕ × Backend)
  pub proxies : List (ℕ × Backend)

pub record PortMapper : Type 0 where
  pub tcp_half : Half
  pub udp_half : Half
  pub calls : List Call

unfoldable pub half : Proto → PortMapper → Half
half tcp m = m.tcp_half
half udp m = m.udp_half

unfoldable pub put_half : Proto → Half → PortMapper → PortMapper
put_half tcp h m = record m { tcp_half = h }
put_half udp h m = record m { udp_half = h }

-- What the outside answers to a call, after the calls before it.
abbrev pub Outside : Type 0
Outside = List Call → Call → Bool

module _ (outside : Outside) where
  -- Make a call, and hand back whether it succeeded.
  unfoldable pub call : Call → PortMapper → Bool × PortMapper
  call c m = (outside m.calls c, record m { calls = m.calls ++ c ∷ [] })

  unfoldable pub unmap : ℕ → Proto → PortMapper → Option MapError × PortMapper
  unfolding call
  unmap port proto m = elim (lookup port (half proto m).mapping) [
    | none ↦ (some not_mapped, m)
    | some backend ↦
        let h = half proto m in
        let closed = put_half proto (record h { proxies = delete port h.proxies }) m in
        let (is_ok, m') = call (forward_delete proto port backend) closed in
        if is_ok
        then (
          none,
          put_half proto
              (record { mapping = delete port h.mapping; proxies = delete port h.proxies }) m',
        )
        else (some iptables_failed, m')
  ]

  unfoldable pub map_port : ℕ → Proto → Backend → PortMapper → Option MapError × PortMapper
  unfolding call
  map_port port proto backend m =
      let (is_ok, m1) = call (forward_add proto port backend) m in
      let h = half proto m1 in
      let m2 = put_half proto (record h { mapping = assign port backend h.mapping }) m1 in
      let (opened, m3) = call (open_proxy proto port backend) m2 in
      let h3 = half proto m3 in
      if is_ok
      then (if opened
          then (none, put_half proto (record h3 { proxies = assign port backend h3.proxies }) m3)
          else (some proxy_failed, (unmap port proto m3).1))
      else (some iptables_failed, m1)

  -- The seven calls of `cleanup`; their errors are ignored.
  abbrev cleanup_calls : List Call
  cleanup_calls =
      delete_jump 0
      ∷ delete_jump 1
      ∷ delete_jump 2
      ∷ delete_jump 3
      ∷ delete_jump 4
      ∷ flush_chain
      ∷ delete_chain
      ∷ []

  unfoldable pub cleanup : PortMapper → PortMapper
  cleanup m = record {
    tcp_half = record { mapping = []; proxies = [] };
    udp_half = record { mapping = []; proxies = [] };
    calls = m.calls ++ cleanup_calls;
  }

  -- `setup` stops at the first call that fails.
  unfoldable pub setup : PortMapper → Option MapError × PortMapper
  unfolding call
  setup m =
      let (made, m1) = call new_chain m in
      let (pre, m2) = call add_jump_prerouting m1 in
      let (out, m3) = call add_jump_output m2 in
      if made
      then (if pre
          then (if out then (none, m3) else (some setup_failed, m3))
          else (some setup_failed, m2))
      else (some setup_failed, m1)

  unfoldable pub new_port_mapper : List Call → Option MapError × PortMapper
  unfolding cleanup setup
  new_port_mapper before =
      let empty : Half = record { mapping = []; proxies = [] } in
      setup (cleanup (record { tcp_half = empty; udp_half = empty; calls = before }))
