-- ===== src/Data/RoundTrip.antt =====
-- `Decode` reads back what `Encode` writes.
use docker_stuff.Base.{
  ℕ, zero, suc, ◌≤◌, ◌<◌, ◌≡◌, refl, Bool, true, false, List, [], ◌∷◌, ◌++◌, Bytes, length, drop,
  append_assoc, append-nil, length-append, arith, drop-append, if◌then◌else◌,
}
use docker_stuff.Text.Split.{eq_bytes}
use docker_stuff.Text.Decimal.{itoa, all_digits, is_digit, value_from}
use docker_stuff.Data.{
  ok, ◌>>=◌, Entries, encode_string, encode_list, encode_named_list, encode_header, encode_entries,
  encode, decode_string, decode_list, decode_header, parse_int, assign, decode_entries, decode,
}
use docker_stuff.Data.Strings.{decode_string-encode_string, length-encode_string}
use docker_stuff.Data.Lists.{max_length, Fits, decode_list-encode_list}

-- Keys and lists whose lengths are `int`s.
abbrev pub FitsAll : Entries → Type 0
FitsAll [] = Unit
FitsAll ((k, values) ∷ obj) = ((length k < max_length) × Fits values) × FitsAll obj

unfoldable pub has_key : Bytes → Entries → Bool
has_key k [] = false
has_key k ((j, w) ∷ obj) = if eq_bytes j k then true else has_key k obj

-- Each key once, as in a map.
abbrev pub IsMap : Entries → Type 0
IsMap [] = Unit
IsMap ((k, values) ∷ obj) = (has_key k obj ≡ false) × IsMap obj

assign_new :
    (k : Bytes) (values : List Bytes) (obj : Entries)
    → has_key k obj ≡ false
    → assign k values obj ≡ obj ++ (k, values) ∷ []
unfolding assign has_key
assign_new k values [] h = refl
assign_new k values ((j, w) ∷ obj) h = ground (arith, assign_new k values obj)

pub eq_bytes_sym : (s t : Bytes) → eq_bytes s t ≡ eq_bytes t s
unfolding eq_bytes
eq_bytes_sym [] [] = refl
eq_bytes_sym [] (b ∷ t) = refl
eq_bytes_sym (a ∷ s) [] = refl
eq_bytes_sym (a ∷ s) (b ∷ t) = ground (arith, eq_bytes_sym s t)

-- A key that comes behind a list of entries is none of theirs.
has_key-append :
    (j k : Bytes) (values : List Bytes) (done obj : Entries)
    → has_key j (done ++ (k, values) ∷ obj) ≡ false
    → eq_bytes k j ≡ false
unfolding has_key
has_key-append j k values [] obj h = ground arith
has_key-append j k values ((i, w) ∷ done) obj h = has_key-append j k values done obj (ground arith)

not_before :
    (k : Bytes) (values : List Bytes) (done obj : Entries)
    → IsMap (done ++ (k, values) ∷ obj)
    → has_key k done ≡ false
unfolding has_key
not_before k values [] obj h = refl
not_before k values ((j, w) ∷ done) obj h = ground (
  arith,
  has_key-append j k values done obj h.0,
  eq_bytes_sym j k,
  not_before k values done obj h.1,
)

decode_entries_nil : (fuel : ℕ) (obj : Entries) → decode_entries fuel [] obj ≡ ok obj
unfolding decode_entries
decode_entries_nil zero obj = refl
decode_entries_nil (suc fuel) obj = refl

decode_entries_step :
    (fuel : ℕ) (msg : Bytes) (obj : Entries)
    → 0 < length msg
    → decode_entries (suc fuel) msg obj ≡ (
        decode_string msg >>= λ key. decode_list (drop key.1 msg) >>= λ values.
        decode_entries fuel (drop values.1 (drop key.1 msg)) (assign key.0 values.0 obj))
unfolding decode_entries
decode_entries_step fuel [] obj h = absurd (omega arith)
decode_entries_step fuel (c ∷ msg) obj h = refl

encode_entries-nil : encode_entries [] ≡ []
unfolding encode_entries
encode_entries-nil = refl

encode_entries-cons :
    (k : Bytes) (values : List Bytes) (obj : Entries)
    → encode_entries ((k, values) ∷ obj)
      ≡ encode_string k ++ (encode_list values ++ encode_entries obj)
unfolding encode_entries encode_named_list
encode_entries-cons k values obj =
    append_assoc (encode_string k) (encode_list values) (encode_entries obj)

size_entry :
    (k : Bytes) (values : List Bytes) (obj : Entries)
    → length (encode_entries obj) < length (encode_entries ((k, values) ∷ obj))
size_entry k values obj = rw encode_entries-cons (
    omega (
      arith,
      length-append (encode_string k) (encode_list values ++ encode_entries obj),
      length-append (encode_list values) (encode_entries obj),
      length-encode_string k,
    ))

decode_entries-encode_entries :
    (fuel : ℕ) (obj done : Entries)
    → length (encode_entries obj) ≤ fuel
    → FitsAll obj
    → IsMap (done ++ obj)
    → decode_entries fuel (encode_entries obj) done ≡ ok (done ++ obj)
decode_entries-encode_entries fuel [] done h f m =
    rw (encode_entries-nil, append-nil) (decode_entries_nil fuel done)
decode_entries-encode_entries zero ((k, values) ∷ obj) done h f m =
    absurd (omega (arith, size_entry k values obj))
decode_entries-encode_entries (suc fuel) ((k, values) ∷ obj) done h f m =
    let rest = encode_list values ++ encode_entries obj in
    rw (
      encode_entries-cons k values obj,
      decode_entries_step fuel (encode_string k ++ rest) done
          (omega (arith, length-append (encode_string k) rest, length-encode_string k)),
      decode_string-encode_string k rest f.0.0,
      drop-append (encode_string k) rest,
      decode_list-encode_list values (encode_entries obj) f.0.1,
      drop-append (encode_list values) (encode_entries obj),
      assign_new k values done (not_before k values done obj m),
      decode_entries-encode_entries fuel obj (done ++ (k, values) ∷ [])
          (omega (arith, h, size_entry k values obj)) f.1 (rw append_assoc m),
      append_assoc,
    )

pub header_lem : (rest : Bytes) → decode_header (encode_header 0 ++ rest) ≡ ok ((false, 0), 4)
unfolding decode_header encode_header itoa parse_int all_digits is_digit value_from
header_lem rest = ground arith

pub length_header : length (encode_header 0) ≡ 4
unfolding encode_header itoa
length_header = refl

-- A map whose keys and lists have lengths that are ints is decoded to itself, in whatever order
-- Encode went through it.
pub decode-encode : (obj : Entries) → FitsAll obj → IsMap obj → decode (encode obj) ≡ ok obj
unfolding decode encode
decode-encode obj f m = rw (header_lem (encode_entries obj)) (
    rw (← length_header) (
      rw (drop-append (encode_header 0) (encode_entries obj)) (
        decode_entries-encode_entries _ obj []
          (omega (arith, length-append (encode_header 0) (encode_entries obj))) f m)))
