-- ===== src/Network/Ip.antt =====
-- The IPv4 arithmetic of dotcloud/docker/network.go: `networkRange`, `networkOverlaps`, `ipToInt`,
-- `intToIP` and `networkSize`. A `net.IP` in its 4-byte form and a `net.IPMask` are four bytes;
-- an `int32` is its bit pattern, a number below 2 ^ 32. The laws are in the modules below.
pub mod Words
pub mod Overlap
pub mod Range
use Prim.Native.Nat.{bit_and, bit_or}
use docker_stuff.Base.{ℕ, ◌+◌, ◌-◌, ◌*◌, ◌/◌, ◌%◌, ◌^◌, ◌<◌, ◌==◌, Bool, ◌&&◌, ◌||◌}

-- Four bytes, the first the most significant.
pub record Quad : Type 0 where
  pub b0 : ℕ
  pub b1 : ℕ
  pub b2 : ℕ
  pub b3 : ℕ

pub record IsQuad (q : Quad) : Type 0 where
  pub fits0 : q.b0 < 256
  pub fits1 : q.b1 < 256
  pub fits2 : q.b2 < 256
  pub fits3 : q.b3 < 256

-- `net.IPNet`
pub record IpNet : Type 0 where
  pub ip : Quad
  pub mask : Quad

pub record IsIpNet (n : IpNet) : Type 0 where
  pub ip_fits : IsQuad n.ip
  pub mask_fits : IsQuad n.mask

-- `IP.Mask` of the standard library
unfoldable pub and_quad : Quad → Quad → Quad
and_quad a m = record {
  b0 = bit_and a.b0 m.b0;
  b1 = bit_and a.b1 m.b1;
  b2 = bit_and a.b2 m.b2;
  b3 = bit_and a.b3 m.b3;
}

-- `^m` on a byte
abbrev pub complement : ℕ → ℕ
complement m = 255 - m

-- `netIP[i] | ^network.Mask[i]`, for each `i`
unfoldable pub or_complement : Quad → Quad → Quad
or_complement a m = record {
  b0 = bit_or a.b0 (complement m.b0);
  b1 = bit_or a.b1 (complement m.b1);
  b2 = bit_or a.b2 (complement m.b2);
  b3 = bit_or a.b3 (complement m.b3);
}

unfoldable pub network_range : IpNet → Quad × Quad
network_range n = (and_quad n.ip n.mask, or_complement n.ip n.mask)

unfoldable pub eq_quad : Quad → Quad → Bool
eq_quad a b = a.b0 == b.b0 && a.b1 == b.b1 && a.b2 == b.b2 && a.b3 == b.b3

-- `IPNet.Contains` of the standard library: the bytes agree under the mask.
unfoldable pub contains_ip : IpNet → Quad → Bool
contains_ip n a = eq_quad (and_quad n.ip n.mask) (and_quad a n.mask)

unfoldable pub network_overlaps : IpNet → IpNet → Bool
network_overlaps x y = contains_ip y (network_range x).0 || contains_ip x (network_range y).0

-- `binary.BigEndian.Uint32`
abbrev pub big_endian : Quad → ℕ
big_endian q = q.b0 * 2 ^ 24 + q.b1 * 2 ^ 16 + q.b2 * 2 ^ 8 + q.b3

unfoldable pub ip_to_int : Quad → ℕ
ip_to_int q = big_endian q

-- `binary.BigEndian.PutUint32`
unfoldable pub int_to_ip : ℕ → Quad
int_to_ip n = record {
  b0 = n / 2 ^ 24 % 256;
  b1 = n / 2 ^ 16 % 256;
  b2 = n / 2 ^ 8 % 256;
  b3 = n % 256;
}

-- The addition of 1 is one of `int32`.
unfoldable pub network_size : Quad → ℕ
network_size m =
    (big_endian (record {
      b0 = complement m.b0;
      b1 = complement m.b1;
      b2 = complement m.b2;
      b3 = complement m.b3;
    })
      + 1)
    % 2 ^ 32
