-- ===== src/Network/Ip/Range.antt =====
-- The first and last address of a network, and its size.
use docker_stuff.Base.{◌+◌, ◌%◌, ◌^◌, ◌≡◌, arith}
use docker_stuff.Base.Bits.{bit_or_byte_complement}
use docker_stuff.Network.Ip.{
  IpNet, IsIpNet, and_quad, or_complement, ip_to_int, network_range, network_size,
}

-- One past the last address of a well-formed network is its first address and its size, in the
-- arithmetic of int32.
pub range_size :
    (n : IpNet)
    → IsIpNet n
    → (ip_to_int (network_range n).1 + 1) % 2 ^ 32
      ≡ (ip_to_int (network_range n).0 + network_size n.mask) % 2 ^ 32
unfolding network_range and_quad or_complement ip_to_int network_size
range_size n h = omega (
  arith,
  bit_or_byte_complement n.ip.b0 n.mask.b0 h.ip_fits.fits0 h.mask_fits.fits0,
  bit_or_byte_complement n.ip.b1 n.mask.b1 h.ip_fits.fits1 h.mask_fits.fits1,
  bit_or_byte_complement n.ip.b2 n.mask.b2 h.ip_fits.fits2 h.mask_fits.fits2,
  bit_or_byte_complement n.ip.b3 n.mask.b3 h.ip_fits.fits3 h.mask_fits.fits3,
)
