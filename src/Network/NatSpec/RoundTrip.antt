-- ===== src/Network/NatSpec/RoundTrip.antt =====
-- What `parseNat` accepts.
use docker_stuff.Base.{
  ℕ, ◌^◌, ◌<◌, ◌≡◌, ◌≢◌, refl, List, [], ◌∷◌, ◌++◌, Bytes, codes, arith, All-append,
}
use docker_stuff.Text.Decimal.{
  itoa, parse_uint-itoa, parse_uint-lt, itoa-IsDigit, itoa-ne-nil, digits-Lacks,
}
use docker_stuff.Text.Split.{split, Lacks, split_at, split_lacking, contains_at, contains_lacking}
use docker_stuff.Network.PortMapper.{Proto, tcp, udp}
use docker_stuff.Network.NatSpec.{
  Nat, ok, parse_port, parse_proto, take_proto, front_back, take_ports, parse_nat, proto_of_parts,
  ports_of_parts, >>=_inv,
}

parse_port-lt : (s : Bytes) (n : ℕ) → parse_port s ≡ ok n → n < 2 ^ 16
unfolding parse_port
parse_port-lt s n h = parse_uint-lt 16 s n (ground arith)

-- The text of a mapping with all its parts.
abbrev pub proto_name : Proto → Bytes
proto_name tcp = codes "tcp"
proto_name udp = codes "udp"

abbrev pub print_nat : Nat → Bytes
print_nat n = (itoa n.frontend ++ b':' ∷ itoa n.backend) ++ b'/' ∷ proto_name n.proto

parse_proto_name : (p : Proto) → parse_proto (proto_name p) ≡ ok p
unfolding parse_proto
parse_proto_name tcp = refl
parse_proto_name udp = refl

take_proto_lem :
    (p : Proto) (s : Bytes) → Lacks b'/' s → take_proto (s ++ b'/' ∷ proto_name p) ≡ ok (p, s)
unfolding take_proto proto_of_parts
take_proto_lem p s h =
    rw (contains_at b'/' s (proto_name p))
      (rw (split_at b'/' s (proto_name p) h, named p) (rw (parse_proto_name p)))
  where
    named : (p : Proto) → split b'/' (proto_name p) ≡ proto_name p ∷ []
    named tcp = split_lacking b'/' (codes "tcp") (omega arith)
    named udp = split_lacking b'/' (codes "udp") (omega arith)

take_ports_lem :
    (f b : Bytes) (m n : ℕ)
    → f ≢ []
    → Lacks b':' f
    → Lacks b':' b
    → parse_port f ≡ ok m
    → parse_port b ≡ ok n
    → take_ports (f ++ b':' ∷ b) ≡ ok (m, n)
unfolding take_ports ports_of_parts front_back
take_ports_lem f b m n ne hf hb pf pb =
    rw (contains_at b':' f b, split_at b':' f b hf, split_lacking b':' b hb) (both f ne pf)
  where
    both : (g : Bytes) → g ≢ [] → parse_port g ≡ ok m → front_back g b ≡ ok (m, n)
    both [] ne e = absurd (ne refl)
    both (c ∷ g) ne e = rw (e, pb)

parse_port-itoa : (n : ℕ) → n < 2 ^ 16 → parse_port (itoa n) ≡ ok n
unfolding parse_port
parse_port-itoa n h = rw (parse_uint-itoa 16 n h, parse_port)

-- The printed form of a mapping with 16-bit ports is parsed to it.
pub parse_nat-print_nat :
    (n : Nat) → n.frontend < 2 ^ 16 → n.backend < 2 ^ 16 → parse_nat (print_nat n) ≡ ok n
unfolding parse_nat
parse_nat-print_nat n hf hb =
    let slash = digits-Lacks b'/' (λ d. omega arith) in
    let colon = digits-Lacks b':' (λ d. omega arith) in
    let f : Bytes = itoa n.frontend in
    let b : Bytes = itoa n.backend in
    rw (
      take_proto_lem n.proto (f ++ b':' ∷ b) (
          All-append (λ c. c ≢ b'/') f (b':' ∷ b) (omega arith, slash b (itoa-IsDigit n.backend))
            (slash f (itoa-IsDigit n.frontend))),
      take_ports_lem f b n.frontend n.backend (itoa-ne-nil n.frontend)
          (colon f (itoa-IsDigit n.frontend)) (colon b (itoa-IsDigit n.backend))
          (parse_port-itoa n.frontend hf) (parse_port-itoa n.backend hb),
    )

-- The ports of every mapping that is accepted fit 16 bits.
front_back-lt : (f b : Bytes) (m n : ℕ) → front_back f b ≡ ok (m, n) → (m < 2 ^ 16) × (n < 2 ^ 16)
unfolding front_back
front_back-lt [] b m n h = ground (arith, parse_port-lt b m, parse_port-lt b n)
front_back-lt (c ∷ f) b m n h = ground (arith, parse_port-lt (c ∷ f) m, parse_port-lt b n)

ports_of_parts-lt :
    (ps : List Bytes) (m n : ℕ) → ports_of_parts ps ≡ ok (m, n) → (m < 2 ^ 16) × (n < 2 ^ 16)
unfolding ports_of_parts
ports_of_parts-lt (f ∷ b ∷ []) m n h = front_back-lt f b m n h
ports_of_parts-lt _ m n h = cc

take_ports-lt : (s : Bytes) (m n : ℕ) → take_ports s ≡ ok (m, n) → (m < 2 ^ 16) × (n < 2 ^ 16)
unfolding take_ports
take_ports-lt s m n h = ground (arith, ports_of_parts-lt (split b':' s) m n, parse_port-lt s n)

-- Both ports of a mapping that was parsed fit 16 bits.
pub parse_nat-lt :
    (spec : Bytes) (n : Nat) → parse_nat spec ≡ ok n → (n.frontend < 2 ^ 16) × (n.backend < 2 ^ 16)
unfolding parse_nat
parse_nat-lt spec n h =
    let (head, e1, rest) = >>=_inv (take_proto spec) _ h in
    let (ports, e2, last) = >>=_inv (take_ports head.1) _ rest in
    let bounds = take_ports-lt head.1 ports.0 ports.1 e2 in ground arith

-- The text of a 16-bit port alone is a TCP backend with any frontend, and behind a colon it is
-- both ends.
pub parse_nat_short :
    (n : ℕ)
    → n < 2 ^ 16
    → (parse_nat (itoa n) ≡ ok (record { proto = tcp; frontend = 0; backend = n }))
      × (parse_nat (b':' ∷ itoa n) ≡ ok (record { proto = tcp; frontend = n; backend = n }))
unfolding parse_nat take_proto take_ports ports_of_parts front_back
parse_nat_short n h =
    let slash = digits-Lacks b'/' (λ d. omega arith) (itoa n) (itoa-IsDigit n) in
    let colon = digits-Lacks b':' (λ d. omega arith) (itoa n) (itoa-IsDigit n) in
    (
      rw (
        contains_lacking b'/' (itoa n) slash,
        contains_lacking b':' (itoa n) colon,
        parse_port-itoa n h,
      ),
      rw (
        contains_lacking b'/' (b':' ∷ itoa n) (omega arith, slash),
        contains_at b':' [] (itoa n),
        split_at b':' [] (itoa n) tt,
        split_lacking b':' (itoa n) colon,
        parse_port-itoa n h,
      ),
    )
