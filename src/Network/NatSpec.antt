-- ===== src/Network/NatSpec.antt =====
-- `Nat` and `parseNat` of dotcloud/docker/network.go: the text of a port mapping, such as
-- "8080:80/tcp". The local variable `spec` is the text before the slash.
pub mod RoundTrip
use docker_stuff.Base.{
  ℕ, zero, suc, if◌then◌else◌, List, [], ◌∷◌, Option, none, some, Bytes, codes, Bool, true, false,
  ◌==◌, ◌&&◌, ◌≡◌, refl,
}
use docker_stuff.Text.Decimal.{parse_uint}
use docker_stuff.Text.Split.{split, contains_byte, eq_bytes}
use docker_stuff.Network.PortMapper.{Proto, tcp, udp}

pub record Nat : Type 0 where
  pub proto : Proto
  pub frontend : ℕ
  pub backend : ℕ

pub data NatError : Type 0 where
  invalid_format : NatError
  unknown_proto : NatError
  bad_number : NatError

pub data NatResult {ℓ} (A : Type ℓ) : Type ℓ where
  ok : A → NatResult A
  err : NatError → NatResult A

infixl 5 ◌>>=◌
abbrev pub ◌>>=◌ {ℓ κ} : {A : Type ℓ} {B : Type κ} → NatResult A → (A → NatResult B) → NatResult B
ok a >>= f = f a
err e >>= f = err e

-- What a successful chain went through.
pub >>=_inv {ℓ κ} :
    {A : Type ℓ} {C : Type κ} (r : NatResult A) (k : A → NatResult C) {c : C}
    → (r >>= k) ≡ ok c
    → (v : A) × (r ≡ ok v) × (k v ≡ ok c)
>>=_inv (ok v) k e = (v, refl, e)
>>=_inv (err x) k e = cc

-- `strconv.ParseUint(s, 10, 16)`
unfoldable pub parse_port : Bytes → NatResult ℕ
parse_port s = elim (parse_uint 16 s) [ none ↦ err bad_number | some n ↦ ok n ]

-- The text behind the slash.
unfoldable pub parse_proto : Bytes → NatResult Proto
unfolding eq_bytes
parse_proto s =
    if eq_bytes s (codes "tcp")
    then ok tcp
    else if eq_bytes s (codes "udp")
    then ok udp
    else err unknown_proto

-- `len(specParts) != 2` is an invalid format.
unfoldable pub proto_of_parts : List Bytes → NatResult (Proto × Bytes)
proto_of_parts (s ∷ p ∷ []) = do proto ← parse_proto p; ok (proto, s)
proto_of_parts _ = err invalid_format

-- The first part of the function: the protocol, and what is left of `spec`.
unfoldable pub take_proto : Bytes → NatResult (Proto × Bytes)
take_proto spec =
    if contains_byte b'/' spec then proto_of_parts (split b'/' spec) else ok (tcp, spec)

-- The frontend of a spec with a colon: an empty one is the same as the backend.
unfoldable pub front_back : Bytes → Bytes → NatResult (ℕ × ℕ)
front_back [] b = do back ← parse_port b; ok (back, back)
front_back (c ∷ f) b = do front ← parse_port (c ∷ f); back ← parse_port b; ok (front, back)

unfoldable pub ports_of_parts : List Bytes → NatResult (ℕ × ℕ)
ports_of_parts (f ∷ b ∷ []) = front_back f b
ports_of_parts _ = err invalid_format

-- The second part: the two ports. Without a colon the frontend is 0, any free port.
unfoldable pub take_ports : Bytes → NatResult (ℕ × ℕ)
take_ports spec =
    if contains_byte b':' spec
    then ports_of_parts (split b':' spec)
    else do port ← parse_port spec; ok (0, port)

unfoldable pub parse_nat : Bytes → NatResult Nat
parse_nat spec = do
  head ← take_proto spec
  ports ← take_ports head.1
  ok (record { proto = head.0; frontend = ports.0; backend = ports.1 })
