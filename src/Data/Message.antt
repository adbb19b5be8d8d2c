-- ===== src/Data/Message.antt =====
-- docker/libchan/data/message.go: a `Message` is an encoded map, and its methods decode it, change
-- the map, and encode it again. A method that may panic returns `Decoded`.
pub mod Laws
use docker_stuff.Base.{if◌then◌else◌, List, [], ◌∷◌, ◌++◌, Option, none, some, Bytes}
use docker_stuff.Text.Split.{cut, contains_byte, eq_bytes}
use docker_stuff.Data.{Decoded, ok, err, panicked, running, ◌>>=◌, Entries, encode, assign, decode}

-- `data[k]`, and whether it is there
unfoldable pub find : Bytes → Entries → Option (List Bytes)
find k [] = none
find k ((j, values) ∷ obj) = if eq_bytes j k then some values else find k obj

-- `delete(data, k)`
unfoldable pub delete : Bytes → Entries → Entries
delete k [] = []
delete k ((j, values) ∷ obj) =
    let rest = delete k obj in if eq_bytes j k then rest else (j, values) ∷ rest

unfoldable pub empty : Bytes
empty = encode []

-- The value of a word with an equals sign: what is behind the first one.
unfoldable pub value_of : Option Bytes → Bytes
value_of none = []
value_of (some v) = v

unfoldable pub parse_words : List Bytes → Entries → Entries
unfolding value_of
parse_words [] obj = obj
parse_words (word ∷ args) obj =
    let (key, val) = cut b'=' word in
    parse_words args (if contains_byte b'=' word then assign key (value_of val ∷ []) obj else obj)

unfoldable pub parse : List Bytes → Bytes
parse args = encode (parse_words args [])

-- The entry of `k` with one more value.
unfoldable pub append_value : Bytes → Bytes → Entries → Entries
append_value k v obj = elim (find k obj) [
  | none ↦ assign k (v ∷ []) obj
  | some values ↦ assign k (values ++ v ∷ []) obj
]

-- An error of `Decode` leaves the message as it is.
unfoldable pub add : Bytes → Bytes → Bytes → Decoded Bytes
add m k v = elim (decode m) [
  | ok obj ↦ ok (encode (append_value k v obj))
  | err e ↦ ok m
  | panicked ↦ panicked
  | running ↦ running
]

-- An error of `Decode` panics.
unfoldable pub set_values : Bytes → Bytes → List Bytes → Decoded Bytes
set_values m k values = elim (decode m) [
  | ok obj ↦ ok (encode (assign k values obj))
  | err e ↦ panicked
  | panicked ↦ panicked
  | running ↦ running
]

unfoldable pub del : Bytes → Bytes → Decoded Bytes
del m k = elim (decode m) [
  | ok obj ↦ ok (encode (delete k obj))
  | err e ↦ panicked
  | panicked ↦ panicked
  | running ↦ running
]

-- A `nil` slice and an empty one are both `[]`.
unfoldable pub found_values : Option (List Bytes) → List Bytes
found_values none = []
found_values (some values) = values

unfoldable pub get : Bytes → Bytes → Decoded (List Bytes)
unfolding found_values
get m k = elim (decode m) [
  | ok obj ↦ ok (found_values (find k obj))
  | err e ↦ ok []
  | panicked ↦ panicked
  | running ↦ running
]
