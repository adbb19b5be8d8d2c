-- ===== src/Data/Message/Laws.antt =====
-- What a client reads from a message after it has been changed.
use docker_stuff.Base.{
  ◌<◌, ◌≡◌, refl, ap, Bool, true, false, if◌then◌else◌, List, [], ◌∷◌, ◌++◌, Option, none, some,
  Bytes, length, arith, Bool-cases, inl, inr,
}
use docker_stuff.Text.Split.{eq_bytes, eq_bytes_iff}
use docker_stuff.Data.{ok, Entries, encode, assign}
use docker_stuff.Data.Lists.{max_length, Fits}
use docker_stuff.Data.RoundTrip.{FitsAll, IsMap, has_key, decode-encode, eq_bytes_sym}
use docker_stuff.Data.Message.{find, delete, append_value, add, set_values, del, found_values, get}

-- The message of a map.
pub record IsMessage (m : Bytes) (obj : Entries) : Type 0 where
  pub fits : FitsAll obj
  pub is_map : IsMap obj
  pub text : m ≡ encode obj

eq_bytes_trans : (i j k : Bytes) → eq_bytes i j ≡ true → eq_bytes i k ≡ eq_bytes j k
eq_bytes_trans i j k e = ap (λ (x : Bytes). eq_bytes x k) ((eq_bytes_iff i j).0 e)

pub find-assign :
    (k j : Bytes) (values : List Bytes) (obj : Entries)
    → find j (assign k values obj) ≡ (if eq_bytes k j then some values else find j obj)
unfolding find assign
find-assign k j values [] = refl
find-assign k j values ((i, w) ∷ obj) =
    ground (arith, find-assign k j values obj, eq_bytes_iff i k, eq_bytes_iff i j, eq_bytes_iff k j)

pub find-delete :
    (k j : Bytes) (obj : Entries)
    → find j (delete k obj) ≡ (if eq_bytes k j then none else find j obj)
unfolding find delete
find-delete k j [] = ground arith
find-delete k j ((i, w) ∷ obj) =
    ground (arith, find-delete k j obj, eq_bytes_iff i k, eq_bytes_iff i j, eq_bytes_iff k j)

has_key-assign :
    (k j : Bytes) (values : List Bytes) (obj : Entries)
    → has_key j (assign k values obj) ≡ (if eq_bytes k j then true else has_key j obj)
unfolding has_key assign
has_key-assign k j values [] = refl
has_key-assign k j values ((i, w) ∷ obj) =
    ground
      (arith, has_key-assign k j values obj, eq_bytes_iff i k, eq_bytes_iff i j, eq_bytes_iff k j)

has_key-delete :
    (k j : Bytes) (obj : Entries) → has_key j obj ≡ false → has_key j (delete k obj) ≡ false
unfolding has_key delete
has_key-delete k j [] h = refl
has_key-delete k j ((i, w) ∷ obj) h = ground (arith, has_key-delete k j obj)

assign-IsMap :
    (k : Bytes) (values : List Bytes) (obj : Entries) → IsMap obj → IsMap (assign k values obj)
unfolding assign has_key
assign-IsMap k values [] m = (refl, tt)
assign-IsMap k values ((i, w) ∷ obj) m = ground (
  arith,
  assign-IsMap k values obj m.1,
  has_key-assign k i values obj,
  eq_bytes_sym i k,
  eq_bytes_iff i k,
)

assign-FitsAll :
    (k : Bytes) (values : List Bytes) (obj : Entries)
    → length k < max_length
    → Fits values
    → FitsAll obj
    → FitsAll (assign k values obj)
unfolding assign
assign-FitsAll k values [] hk hv f = ((hk, hv), tt)
assign-FitsAll k values ((i, w) ∷ obj) hk hv f = elim (Bool-cases (eq_bytes i k)) [
  | inl e ↦ rw e ((hk, hv), f.1)
  | inr ne ↦ rw ne (f.0, assign-FitsAll k values obj hk hv f.1)
]

get-find :
    (m : Bytes) (obj : Entries) (k : Bytes)
    → IsMessage m obj
    → get m k ≡ ok (found_values (find k obj))
unfolding get
get-find m obj k h = rw (h.text, decode-encode obj h.fits h.is_map, get)

assigned-IsMessage :
    (obj : Entries) (k : Bytes) (values : List Bytes)
    → FitsAll obj
    → IsMap obj
    → length k < max_length
    → Fits values
    → IsMessage (encode (assign k values obj)) (assign k values obj)
assigned-IsMessage obj k values f m hk hv = record {
  fits = assign-FitsAll k values obj hk hv f;
  is_map = assign-IsMap k values obj m;
  text = refl;
}

found_if :
    (b : Bool) (values : List Bytes) (o : Option (List Bytes))
    → ok (found_values (if b then some values else o))
      ≡ (if b then ok values else ok (found_values o))
unfolding found_values
found_if true values o = refl
found_if false values o = refl

unfound_if :
    (b : Bool) (o : Option (List Bytes))
    → ok (found_values (if b then none else o)) ≡ (if b then ok [] else ok (found_values o))
unfolding found_values
unfound_if true o = refl
unfound_if false o = refl

get_assigned :
    (m : Bytes) (obj : Entries) (k : Bytes) (values : List Bytes) (j : Bytes)
    → IsMessage m obj
    → length k < max_length
    → Fits values
    → get (encode (assign k values obj)) j ≡ (if eq_bytes k j then ok values else get m j)
get_assigned m obj k values j h hk hv =
    rw
      (
        get-find _ _ j (assigned-IsMessage obj k values h.fits h.is_map hk hv),
        get-find m obj j h,
        find-assign k j values obj,
      )
      (found_if (eq_bytes k j) values (find j obj))

-- Set with a key and values of int lengths, on a message that encodes a map, gives a message
-- from which Get reads the new values at the key, and at every other key what it read before.
pub get-set_values :
    (m : Bytes) (obj : Entries) (k : Bytes) (values : List Bytes)
    → IsMessage m obj
    → length k < max_length
    → Fits values
    → (n : Bytes) × (set_values m k values ≡ ok n)
      × ((j : Bytes) → get n j ≡ (if eq_bytes k j then ok values else get m j))
unfolding set_values
get-set_values m obj k values h hk hv = (
  encode (assign k values obj),
  rw (h.text, decode-encode obj h.fits h.is_map, set_values),
  λ j. get_assigned m obj k values j h hk hv,
)

append_value-assign :
    (k v : Bytes) (obj : Entries)
    → append_value k v obj ≡ assign k (found_values (find k obj) ++ v ∷ []) obj
unfolding append_value found_values
append_value-assign k v obj = by_entry (find k obj) refl
  where
    by_entry :
        (o : Option (List Bytes))
        → find k obj ≡ o
        → append_value k v obj ≡ assign k (found_values (find k obj) ++ v ∷ []) obj
    by_entry none e = rw (e, append_value)
    by_entry (some values) e = rw (e, append_value)

-- Add with a key and a list of int lengths, on a message that encodes a map, gives a message
-- from which Get reads one more value at the key, behind those that were there, and at every
-- other key what it read before.
get-add :
    (m : Bytes) (obj : Entries) (k v : Bytes)
    → IsMessage m obj
    → length k < max_length
    → Fits (found_values (find k obj) ++ v ∷ [])
    → (n : Bytes) × (add m k v ≡ ok n)
      × ((j : Bytes)
          → get n j ≡ (if eq_bytes k j then ok (found_values (find k obj) ++ v ∷ []) else get m j))
unfolding add
get-add m obj k v h hk hv = (
  encode (append_value k v obj),
  rw (h.text, decode-encode obj h.fits h.is_map, add),
  λ j.
      rw append_value-assign (get_assigned m obj k (found_values (find k obj) ++ v ∷ []) j h hk hv),
)

delete-IsMap : (k : Bytes) (obj : Entries) → IsMap obj → IsMap (delete k obj)
unfolding delete has_key
delete-IsMap k [] m = tt
delete-IsMap k ((i, w) ∷ obj) m = ground (arith, delete-IsMap k obj m.1, has_key-delete k i obj)

delete-FitsAll : (k : Bytes) (obj : Entries) → FitsAll obj → FitsAll (delete k obj)
unfolding delete
delete-FitsAll k [] f = tt
delete-FitsAll k ((i, w) ∷ obj) f = elim (Bool-cases (eq_bytes i k)) [
  | inl e ↦ rw e (delete-FitsAll k obj f.1)
  | inr ne ↦ rw ne (f.0, delete-FitsAll k obj f.1)
]

-- Del on a message that encodes a map gives a message from which Get reads nothing at the key,
-- and at every other key what it read before.
pub get-del :
    (m : Bytes) (obj : Entries) (k : Bytes)
    → IsMessage m obj
    → (n : Bytes) × (del m k ≡ ok n)
      × ((j : Bytes) → get n j ≡ (if eq_bytes k j then ok [] else get m j))
unfolding del
get-del m obj k h = (
  encode (delete k obj),
  rw (h.text, decode-encode obj h.fits h.is_map, del),
  λ j.
      rw
        (
          get-find (encode (delete k obj)) (delete k obj) j (record {
            fits = delete-FitsAll k obj h.fits;
            is_map = delete-IsMap k obj h.is_map;
            text = refl;
          }),
          get-find m obj j h,
          find-delete k j obj,
        )
        (unfound_if (eq_bytes k j) (find j obj)),
)
