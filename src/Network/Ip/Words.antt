-- ===== src/Network/Ip/Words.antt =====
-- Addresses and their 32-bit numbers.
use docker_stuff.Base.{ℕ, ◌^◌, ◌<◌, ◌≡◌, arith}
use docker_stuff.Network.Ip.{Quad, IsQuad, ip_to_int, int_to_ip}

pub ip_to_int-lt : (q : Quad) → IsQuad q → ip_to_int q < 2 ^ 32
unfolding ip_to_int
ip_to_int-lt q h = omega arith

pub int_to_ip-IsQuad : (n : ℕ) → IsQuad (int_to_ip n)
unfolding int_to_ip
int_to_ip-IsQuad n = omega arith

-- Four bytes are read back from the number that they make, and a 32-bit number from its four
-- bytes.
int_to_ip_inverse :
    (q : Quad) (n : ℕ)
    → IsQuad q
    → n < 2 ^ 32
    → (int_to_ip (ip_to_int q) ≡ q) × (ip_to_int (int_to_ip n) ≡ n)
unfolding ip_to_int int_to_ip
int_to_ip_inverse q n h lt = (ground arith, omega arith)

pub ip_to_int-int_to_ip : (n : ℕ) → n < 2 ^ 32 → ip_to_int (int_to_ip n) ≡ n
unfolding ip_to_int int_to_ip
ip_to_int-int_to_ip n h = omega arith
