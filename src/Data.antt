-- ===== src/Data.antt =====
-- The wire format of libchan, docker/libchan/data/data.go: maps of lists of strings as nested
-- netstrings behind a header. A string is the list of its bytes. A `map[string][]string` is the list
-- of its entries, each key once, in the order in which `range` happens to visit it.
pub mod Strings
pub mod Lists
pub mod RoundTrip
pub mod Totality
pub mod Message
pub mod Examples
use docker_stuff.Base.{
  ℕ, zero, suc, ◌+◌, ◌-◌, ◌%◌, ◌^◌, ltb, leb, ◌==◌, if◌then◌else◌, Bool, true, false, not, ◌&&◌,
  ◌||◌, List, [], ◌∷◌, ◌++◌, Option, none, some, Bytes, length, take, drop, get_elem?,
}
use docker_stuff.Text.Decimal.{itoa, parse_uint, all_digits, value_from}
use docker_stuff.Text.Split.{cut, concat, eq_bytes}

pub data DataError : Type 0 where
  no_column : DataError
  bad_number : DataError
  too_short : DataError
  no_comma : DataError
  too_small : DataError
  unknown_type : DataError

-- `running` is a loop that is out of fuel.
pub data Decoded {ℓ} (A : Type ℓ) : Type ℓ where
  ok : A → Decoded A
  err : DataError → Decoded A
  panicked : Decoded A
  running : Decoded A

infixl 5 ◌>>=◌
abbrev pub ◌>>=◌ {ℓ κ} : {A : Type ℓ} {B : Type κ} → Decoded A → (A → Decoded B) → Decoded B
ok a >>= f = f a
err e >>= f = err e
panicked >>= f = panicked
running >>= f = running

abbrev pub Entries : Type 0
Entries = List (Bytes × List Bytes)

-- `fmt.Sprintf("%d:%s,", len(s), s)`
unfoldable pub encode_string : Bytes → Bytes
encode_string s = itoa (length s) ++ b':' ∷ (s ++ b',' ∷ [])

-- The concatenation of the encoded values.
unfoldable pub encode_items : List Bytes → Bytes
encode_items [] = []
encode_items (s ∷ l) = encode_string s ++ encode_items l

unfoldable pub encode_list : List Bytes → Bytes
encode_list l = encode_string (encode_items l)

unfoldable pub encode_named_list : Bytes → List Bytes → Bytes
encode_named_list name l = encode_string name ++ encode_list l

-- `fmt.Sprintf("%03.3d;", msgtype)`: three digits at least.
abbrev zeros : ℕ → Bytes
zeros zero = []
zeros (suc n) = b'0' ∷ zeros n

unfoldable pub encode_header : ℕ → Bytes
encode_header msgtype = zeros (3 - length (itoa msgtype)) ++ (itoa msgtype ++ b';' ∷ [])

-- The loop of `Encode`, after the header.
unfoldable pub encode_entries : Entries → Bytes
encode_entries [] = []
encode_entries ((k, values) ∷ obj) = encode_named_list k values ++ encode_entries obj

unfoldable pub encode : Entries → Bytes
encode obj = encode_header 0 ++ encode_entries obj

-- The end of `decodeString`, for `length` read as the `uint64` `l`. In `int` the bound `length+1` is
-- negative from 2 ^ 63 - 1 on, where the slice panics; at 2 ^ 64 - 1 `length` is -1, the bound is 0,
-- and the index into the empty payload panics. A negative bound is less than no length.
unfoldable pub take_payload : Bytes → ℕ → Decoded Bytes
take_payload rest l =
    let bound = (l + 1) % 2 ^ 64 in
    let payload = take bound rest in
    if leb (2 ^ 63) bound
    then panicked
    else if ltb (length rest) bound
    then err too_short
    else elim (get_elem? payload l) [
      | none ↦ panicked
      | some c ↦ if c == b',' then ok (take l payload) else err no_comma
    ]

-- The part of `decodeString` after the split: the text before the column, and behind it.
unfoldable pub decode_parts : Bytes → Bytes → Decoded (Bytes × ℕ)
decode_parts head rest = elim (parse_uint 64 head) [
  | none ↦ err bad_number
  | some l ↦ do s ← take_payload rest l; ok (s, length head + 1 + l + 1)
]

unfoldable pub decode_split : Bytes × Option Bytes → Decoded (Bytes × ℕ)
decode_split (head, none) = err no_column
decode_split (head, some rest) = decode_parts head rest

-- The string at the front of `msg`, and how many bytes it takes there.
unfoldable pub decode_string : Bytes → Decoded (Bytes × ℕ)
decode_string msg = decode_split (cut b':' msg)

-- The loop of `decodeList`: the strings up to the end of `blob`.
unfoldable pub decode_items : ℕ → Bytes → List Bytes → Decoded (List Bytes)
decode_items fuel [] l = ok l
decode_items zero (c ∷ blob) l = running
decode_items (suc fuel) (c ∷ blob) l = do
  r ← decode_string (c ∷ blob)
  decode_items fuel (drop r.1 (c ∷ blob)) (l ++ r.0 ∷ [])

-- Every string takes a byte at least, so that the length of the blob is enough fuel.
unfoldable pub decode_list : Bytes → Decoded (List Bytes × ℕ)
decode_list msg = do r ← decode_string msg; l ← decode_items (length r.0) r.0 []; ok (l, r.1)

-- `strconv.ParseInt(s, 10, 32)` for three bytes: a sign and the magnitude, which fits.
unfoldable pub parse_int : Bytes → Option (Bool × ℕ)
parse_int [] = none
parse_int (c ∷ s) =
    if c == b'-' || c == b'+'
    then (elim s [
      | [] ↦ none
      | d ∷ r ↦ if all_digits (d ∷ r) then some (c == b'-', value_from 0 (d ∷ r)) else none
    ])
    else if all_digits (c ∷ s)
    then some (false, value_from 0 (c ∷ s))
    else none

-- The message type, with its sign, and the 4 bytes of the header.
unfoldable pub decode_header : Bytes → Decoded ((Bool × ℕ) × ℕ)
decode_header msg =
    if ltb (length msg) 4
    then err too_small
    else elim (parse_int (take 3 msg)) [ none ↦ err bad_number | some t ↦ ok (t, 4) ]

-- `obj[k] = values`
unfoldable pub assign : Bytes → List Bytes → Entries → Entries
assign k values [] = (k, values) ∷ []
assign k values ((j, w) ∷ obj) =
    if eq_bytes j k then (k, values) ∷ obj else (j, w) ∷ assign k values obj

-- The loop of `Decode`.
unfoldable pub decode_entries : ℕ → Bytes → Entries → Decoded Entries
decode_entries fuel [] obj = ok obj
decode_entries zero (c ∷ msg) obj = running
decode_entries (suc fuel) (c ∷ msg) obj = do
  key ← decode_string (c ∷ msg)
  values ← decode_list (drop key.1 (c ∷ msg))
  decode_entries fuel (drop values.1 (drop key.1 (c ∷ msg))) (assign key.0 values.0 obj)

unfoldable pub decode : Bytes → Decoded Entries
decode msg = do
  head ← decode_header msg
  if head.0.1 == 0 then decode_entries (length msg) (drop head.1 msg) [] else err unknown_type
