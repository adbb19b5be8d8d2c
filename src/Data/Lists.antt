-- ===== src/Data/Lists.antt =====
-- A list of strings is read back.
use docker_stuff.Base.{
  ℕ, zero, suc, ◌+◌, ◌-◌, ◌^◌, ◌≤◌, ◌<◌, ◌≡◌, refl, List, [], ◌∷◌, ◌++◌, Bytes, length, drop,
  append_assoc, append-nil, length-append, arith, drop-append,
}
use docker_stuff.Data.{
  ok, ◌>>=◌, encode_string, encode_items, encode_list, decode_string, decode_items, decode_list,
}
use docker_stuff.Data.Strings.{decode_string-encode_string, length-encode_string}

-- One byte of payload is taken by the comma, and the bound is an `int`.
abbrev pub max_length : ℕ
max_length = 2 ^ 63 - 1

-- The encoded values together have a length that is an `int`.
abbrev pub Fits : List Bytes → Type 0
Fits l = length (encode_items l) < max_length

pub decode_items_step :
    (fuel : ℕ) (blob : Bytes) (l : List Bytes)
    → 0 < length blob
    → decode_items (suc fuel) blob l
      ≡ (decode_string blob >>= λ r. decode_items fuel (drop r.1 blob) (l ++ r.0 ∷ []))
unfolding decode_items
decode_items_step fuel [] l h = absurd (omega arith)
decode_items_step fuel (c ∷ blob) l h = refl

decode_items_nil : (fuel : ℕ) (l : List Bytes) → decode_items fuel [] l ≡ ok l
unfolding decode_items
decode_items_nil zero l = refl
decode_items_nil (suc fuel) l = refl

encode_items-nil : encode_items [] ≡ []
unfolding encode_items
encode_items-nil = refl

encode_items-cons :
    (s : Bytes) (l : List Bytes) → encode_items (s ∷ l) ≡ encode_string s ++ encode_items l
unfolding encode_items
encode_items-cons s l = refl

length-cons_items :
    (s : Bytes) (l : List Bytes)
    → length (encode_items (s ∷ l)) ≡ length (encode_string s) + length (encode_items l)
unfolding encode_items
length-cons_items s l = length-append (encode_string s) (encode_items l)

decode_items-encode_items :
    (fuel : ℕ) (l done : List Bytes)
    → length (encode_items l) ≤ fuel
    → Fits l
    → decode_items fuel (encode_items l) done ≡ ok (done ++ l)
decode_items-encode_items fuel [] done h f =
    rw (encode_items-nil, append-nil) (decode_items_nil fuel done)
decode_items-encode_items zero (s ∷ l) done h f =
    absurd (omega (arith, length-cons_items s l, length-encode_string s))
decode_items-encode_items (suc fuel) (s ∷ l) done h f =
    let size = length-cons_items s l in
    let own = length-encode_string s in
    rw (
      encode_items-cons s l,
      decode_items_step fuel (encode_string s ++ encode_items l) done
          (omega (arith, size, own, length-append (encode_string s) (encode_items l))),
      decode_string-encode_string s (encode_items l) (omega (arith, size, own)),
      drop-append (encode_string s) (encode_items l),
      decode_items-encode_items fuel l (done ++ s ∷ []) (omega (arith, size, own))
          (omega (arith, size)),
      append_assoc,
    )

-- An encoded list in front of any text is read back, with the number of its bytes.
pub decode_list-encode_list :
    (l : List Bytes) (rest : Bytes)
    → Fits l
    → decode_list (encode_list l ++ rest) ≡ ok (l, length (encode_list l))
unfolding decode_list encode_list
decode_list-encode_list l rest f = rw (
  decode_string-encode_string (encode_items l) rest f,
  decode_items-encode_items (length (encode_items l)) l [] (omega arith) f,
)
