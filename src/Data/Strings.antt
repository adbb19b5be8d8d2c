-- ===== src/Data/Strings.antt =====
-- A netstring is read back, and what `decodeString` accepts or panics at.
use docker_stuff.Base.{
  ℕ, suc, ◌+◌, ◌-◌, ◌%◌, ◌^◌, ◌<◌, ltb, leb, ◌≡◌, refl, ap, false, [], ◌∷◌, ◌++◌, some, Bytes,
  length, take, get_elem?, append_assoc, length-append, arith, take-append,
}
use native.Mathlib.Numerals.{add-one}
use docker_stuff.Text.Decimal.{itoa, parse_uint-itoa, itoa-IsDigit, digits-Lacks}
use docker_stuff.Text.Split.{cut_at}
use docker_stuff.Data.{ok, encode_string, take_payload, decode_parts, decode_split, decode_string}

take_one_more : (s rest : Bytes) (c : ℕ) → take (length s + 1) (s ++ c ∷ rest) ≡ s ++ c ∷ []
take_one_more s rest c = rw add-one (go s)
  where
    go : (t : Bytes) → take (suc (length t)) (t ++ c ∷ rest) ≡ t ++ c ∷ []
    go [] = refl
    go (d ∷ t) = ap (λ l. d ∷ l) (go t)

get_elem?-append : (s rest : Bytes) (c : ℕ) → get_elem? (s ++ c ∷ rest) (length s) ≡ some c
get_elem?-append [] rest c = refl
get_elem?-append (d ∷ s) rest c = get_elem?-append s rest c

take_payload_lem :
    (s rest : Bytes) → length s < 2 ^ 63 - 1 → take_payload (s ++ b',' ∷ rest) (length s) ≡ ok s
unfolding take_payload
take_payload_lem s rest h =
    let bound : (length s + 1) % 2 ^ 64 ≡ length s + 1 = omega arith in
    let fits : leb (2 ^ 63) (length s + 1) ≡ false = ground arith in
    let enough : ltb (length (s ++ b',' ∷ rest)) (length s + 1) ≡ false =
      ground (arith, length-append s (b',' ∷ rest)) in
    rw (bound, fits, enough, take_one_more s rest b',', get_elem?-append s [] b',')
      (rw (bound, take_one_more s rest b',', take-append s (b',' ∷ [])))

pub length-encode_string :
    (s : Bytes) → length (encode_string s) ≡ length (itoa (length s)) + 1 + length s + 1
unfolding encode_string
length-encode_string s =
    omega (
      arith,
      length-append (itoa (length s)) (b':' ∷ (s ++ b',' ∷ [])),
      length-append s (b',' ∷ []),
    )

shape : (s rest : Bytes) → encode_string s ++ rest ≡ itoa (length s) ++ b':' ∷ (s ++ b',' ∷ rest)
unfolding encode_string
shape s rest = simp append_assoc

-- An encoded string in front of any text is read back, with the number of its bytes.
pub decode_string-encode_string :
    (s rest : Bytes)
    → length s < 2 ^ 63 - 1
    → decode_string (encode_string s ++ rest) ≡ ok (s, length (encode_string s))
unfolding decode_string decode_split decode_parts
decode_string-encode_string s rest h =
    rw
      (
        shape s rest,
        cut_at b':' (itoa (length s)) (s ++ b',' ∷ rest)
            (digits-Lacks b':' (λ d. omega arith) _ (itoa-IsDigit (length s))),
        parse_uint-itoa 64 (length s) (omega arith),
        decode_parts,
      )
      (rw (take_payload_lem s rest h, length-encode_string s))
