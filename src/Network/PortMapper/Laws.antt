-- ===== src/Network/PortMapper/Laws.antt =====
-- What `Map` and `Unmap` do to the maps of the port mapper.
use docker_stuff.Base.{
  ℕ, ◌==◌, if◌then◌else◌, ◌≡◌, ◌≢◌, refl, ap, ◌∙◌, Bool, true, List, [], ◌∷◌, ◌++◌, Option, none,
  some, arith, inl, inr, ◌&&◌, not, ◌⊎◌,
}
use native.Mathlib.Decide.{ℕ_discrete}
use docker_stuff.Network.PortMapper.{
  Proto, tcp, udp, Backend, forward_add, forward_delete, open_proxy, lookup, delete, assign, Half,
  PortMapper, half, put_half, Outside, unmap, map_port,
}

module _ {ℓ} {V : Type ℓ} where
  pub lookup-delete :
      (k j : ℕ) (m : List (ℕ × V)) → lookup j (delete k m) ≡ (if k == j then none else lookup j m)
  unfolding lookup delete
  lookup-delete k j [] = ground arith
  lookup-delete k j ((i, v) ∷ m) = ground (arith, lookup-delete k j m)

  pub lookup-assign :
      (k j : ℕ) (v : V) (m : List (ℕ × V))
      → lookup j (assign k v m) ≡ (if k == j then some v else lookup j m)
  unfolding lookup assign
  lookup-assign k j v m = ground (arith, lookup-delete k j m)

-- The backend that a port is mapped to, and the proxy that runs for it.
abbrev pub mapped : PortMapper → Proto → ℕ → Option Backend
mapped m proto port = lookup port (half proto m).mapping

abbrev pub proxied : PortMapper → Proto → ℕ → Option Backend
proxied m proto port = lookup port (half proto m).proxies

-- What `Unmap` changes, if the rule could be deleted.
abbrev pub IsUnmapped : ℕ → Proto → PortMapper → PortMapper → Type 0
IsUnmapped port proto m n =
    (q : ℕ)
    → (mapped n proto q ≡ (if port == q then none else mapped m proto q))
      × (proxied n proto q ≡ (if port == q then none else proxied m proto q))

-- What `Map` changes, if it succeeds.
abbrev pub IsMapped : ℕ → Proto → Backend → PortMapper → PortMapper → Type 0
IsMapped port proto backend m n =
    (q : ℕ)
    → (mapped n proto q ≡ (if port == q then some backend else mapped m proto q))
      × (proxied n proto q ≡ (if port == q then some backend else proxied m proto q))

-- The DNAT rule was added, the proxy could not be opened, and the rule cannot be deleted again.
abbrev pub stays_mapped : Outside → ℕ → Proto → Backend → PortMapper → Bool
stays_mapped outside port proto backend m =
    let added = m.calls ++ forward_add proto port backend ∷ [] in
    let opened = added ++ open_proxy proto port backend ∷ [] in
    outside m.calls (forward_add proto port backend)
    && not (outside added (open_proxy proto port backend))
    && not (outside opened (forward_delete proto port backend))

abbrev pub other : Proto → Proto
other tcp = udp
other udp = tcp

pub same_or_other : (proto p : Proto) → (p ≡ proto) ⊎ (p ≡ other proto)
same_or_other tcp tcp = inl refl
same_or_other tcp udp = inr refl
same_or_other udp tcp = inr refl
same_or_other udp udp = inl refl

-- An entry that was put in a free place and taken out again.
taken_out :
    (port q : ℕ) (before put after : ℕ → Option Backend) (backend : Backend)
    → before port ≡ none
    → put q ≡ (if port == q then some backend else before q)
    → after q ≡ (if port == q then none else put q)
    → after q ≡ before q
taken_out port q before put after backend free e1 e2 = elim (ℕ_discrete port q) [
  | yes same ↦ ground (arith, ap before same)
  | no ne ↦ ground arith
]

module _ (outside : Outside) where
  pub unmap-IsUnmapped :
      (port : ℕ) (proto : Proto) (m : PortMapper)
      → (unmap outside port proto m).0 ≡ none
      → IsUnmapped port proto m (unmap outside port proto m).1
  unfolding unmap half put_half
  unmap-IsUnmapped port tcp m e q =
      ground
        (arith, lookup-delete port q m.tcp_half.mapping, lookup-delete port q m.tcp_half.proxies)
  unmap-IsUnmapped port udp m e q =
      ground
        (arith, lookup-delete port q m.udp_half.mapping, lookup-delete port q m.udp_half.proxies)

  -- `Unmap` succeeds on a mapped port whose rule can be deleted.
  pub unmap_ok :
      (port : ℕ) (proto : Proto) (m : PortMapper) (backend : Backend)
      → mapped m proto port ≡ some backend
      → outside m.calls (forward_delete proto port backend) ≡ true
      → (unmap outside port proto m).0 ≡ none
  unfolding unmap half put_half
  unmap_ok port tcp m backend e ok = ground arith
  unmap_ok port udp m backend e ok = ground arith

  pub map_port-IsMapped :
      (port : ℕ) (proto : Proto) (backend : Backend) (m : PortMapper)
      → (map_port outside port proto backend m).0 ≡ none
      → IsMapped port proto backend m (map_port outside port proto backend m).1
  unfolding map_port half put_half
  map_port-IsMapped port tcp backend m e q = ground (
    arith,
    lookup-assign port q backend m.tcp_half.mapping,
    lookup-assign port q backend m.tcp_half.proxies,
  )
  map_port-IsMapped port udp backend m e q = ground (
    arith,
    lookup-assign port q backend m.udp_half.mapping,
    lookup-assign port q backend m.udp_half.proxies,
  )

  -- The maps of the other protocol stay as they are, whatever happens.
  pub map_port-other :
      (port : ℕ) (proto : Proto) (backend : Backend) (m : PortMapper)
      → half (other proto) (map_port outside port proto backend m).1 ≡ half (other proto) m
  unfolding map_port unmap half put_half
  map_port-other port tcp backend m = ground arith
  map_port-other port udp backend m = ground arith

  pub unmap-other :
      (port : ℕ) (proto : Proto) (m : PortMapper)
      → half (other proto) (unmap outside port proto m).1 ≡ half (other proto) m
  unfolding unmap half put_half
  unmap-other port tcp m = ground arith
  unmap-other port udp m = ground arith

  -- A Map that fails on a port that was free leaves every other port as it was, and this one
  -- without a proxy; it leaves this port mapped exactly if the rule was added, the proxy could
  -- not be opened, and the rule cannot be deleted again.
  map_port_failed :
      (port : ℕ) (proto : Proto) (backend : Backend) (m : PortMapper)
      → mapped m proto port ≡ none
      → proxied m proto port ≡ none
      → (map_port outside port proto backend m).0 ≢ none
      → (q : ℕ)
      → (proxied (map_port outside port proto backend m).1 proto q ≡ proxied m proto q)
        × (mapped (map_port outside port proto backend m).1 proto q ≡ (
            if stays_mapped outside port proto backend m && port == q
            then some backend
            else mapped m proto q))
  unfolding map_port unmap half put_half
  map_port_failed port tcp backend m h1 h2 h3 q = ground (
    arith,
    lookup-assign port port backend m.tcp_half.mapping,
    lookup-assign port q backend m.tcp_half.mapping,
    lookup-delete port q (assign port backend m.tcp_half.mapping),
    lookup-delete port q m.tcp_half.proxies,
  )
  map_port_failed port udp backend m h1 h2 h3 q = ground (
    arith,
    lookup-assign port port backend m.udp_half.mapping,
    lookup-assign port q backend m.udp_half.mapping,
    lookup-delete port q (assign port backend m.udp_half.mapping),
    lookup-delete port q m.udp_half.proxies,
  )

  -- Mapping a free port and unmapping it again, both without an error, gives back the maps as
  -- they were.
  pub unmap-map_port :
      (port : ℕ) (proto : Proto) (backend : Backend) (m : PortMapper)
      → mapped m proto port ≡ none
      → proxied m proto port ≡ none
      → (map_port outside port proto backend m).0 ≡ none
      → (unmap outside port proto (map_port outside port proto backend m).1).0 ≡ none
      → (p : Proto) (q : ℕ)
      → (mapped (unmap outside port proto (map_port outside port proto backend m).1).1 p q
          ≡ mapped m p q)
        × (proxied (unmap outside port proto (map_port outside port proto backend m).1).1 p q
            ≡ proxied m p q)
  unmap-map_port port proto backend m h1 h2 e1 e2 p q =
      let n : PortMapper = (map_port outside port proto backend m).1 in
      elim (same_or_other proto p) [
        | inl e ↦
            let (m1, p1) = map_port-IsMapped port proto backend m e1 q in
            let (m2, p2) = unmap-IsUnmapped port proto n e2 q in
            let u : PortMapper = (unmap outside port proto n).1 in
            rw e (
              taken_out port q (mapped m proto) (mapped n proto) (mapped u proto) backend h1 m1 m2,
              taken_out port q (proxied m proto) (proxied n proto) (proxied u proto) backend h2 p1
                  p2,
            )
        | inr e ↦
            let unchanged = unmap-other port proto n ∙ map_port-other port proto backend m in
            rw e (
              ap (λ (h : Half). lookup q h.mapping) unchanged,
              ap (λ (h : Half). lookup q h.proxies) unchanged,
            )
      ]
