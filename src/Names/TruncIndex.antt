-- ===== src/Names/TruncIndex.antt =====
-- `TruncIndex` of dotcloud/docker/utils/utils.go. The suffix array is one of `bytes` at all times,
-- and is left out; the keys of the map are listed in the order in which they were added.
pub mod Offsets
pub mod Segments
pub mod Spec
pub mod Steps
pub mod Refinement
pub mod Calm
pub mod Examples
use docker_stuff.Base.{
  ℕ, zero, suc, ◌+◌, ◌-◌, ◌==◌, leb, if◌then◌else◌, Bool, true, false, List, [], ◌∷◌, ◌++◌, Option,
  none, some, Bytes, take, drop,
}
use docker_stuff.Text.Split.{eq_bytes, contains_byte, has_text}
use docker_stuff.Text.Trim.{has_prefix}

pub record TruncIndex : Type 0 where
  pub ids : List Bytes
  pub bytes : Bytes

pub data IndexError : Type 0 where
  illegal_character already_exists no_such_id : IndexError

-- `panicked` is a slice that ends before it begins.
pub data IndexResult (A : Type 0) : Type 0 where
  ok : A → IndexResult A
  err : IndexError → IndexResult A
  panicked : IndexResult A

abbrev pub new_trunc_index : TruncIndex
new_trunc_index = record { ids = []; bytes = b' ' ∷ [] }

unfoldable pub add : Bytes → TruncIndex → IndexResult (Unit {0}) × TruncIndex
unfolding contains_byte has_text
add id idx =
    if contains_byte b' ' id
    then (err illegal_character, idx)
    else if has_text id idx.ids
    then (err already_exists, idx)
    else (ok tt, record { ids = idx.ids ++ id ∷ []; bytes = idx.bytes ++ (id ++ b' ' ∷ []) })

-- `Lookup(s, -1)` of the suffix array, at an offset: where a text occurs. The code reads the result
-- only if it is one offset, so that the order does not matter.
unfoldable pub offsets : ℕ → Bytes → Bytes → List ℕ
unfolding has_prefix
offsets i s [] = []
offsets i s (c ∷ bytes) =
    let later = offsets (suc i) s bytes in if has_prefix s (c ∷ bytes) then i ∷ later else later

-- `strings.Index` of one byte; `none` is -1.
unfoldable pub index_of : ℕ → Bytes → Option ℕ
index_of b [] = none
index_of b (c ∷ s) =
    let later : Option ℕ = elim (index_of b s) [ none ↦ none | some i ↦ some (suc i) ] in
    if c == b then some 0 else later

-- The end of the identifier that begins behind an offset; -1 is added for `none`.
abbrev pub end_of : ℕ → Option ℕ → ℕ
end_of offset none = offset
end_of offset (some length) = suc offset + length

unfoldable pub one_offset : Bytes → List ℕ → Option (ℕ × ℕ)
unfolding index_of
one_offset bytes [] = none
one_offset bytes (offset ∷ []) =
    some (suc offset, end_of offset (index_of b' ' (drop (suc offset) bytes)))
one_offset bytes (offset ∷ next ∷ offsets) = none

unfoldable pub lookup : Bytes → TruncIndex → Option (ℕ × ℕ)
unfolding one_offset offsets
lookup s idx = one_offset idx.bytes (offsets 0 (b' ' ∷ s) idx.bytes)

abbrev pub slice : ℕ → ℕ → Bytes → IndexResult Bytes
slice before after bytes =
    if leb before after then ok (take (after - before) (drop before bytes)) else panicked

abbrev pub get_found : Bytes → Option (ℕ × ℕ) → IndexResult Bytes
get_found bytes none = err no_such_id
get_found bytes (some (before, after)) = slice before after bytes

unfoldable pub get : Bytes → TruncIndex → IndexResult Bytes
unfolding lookup
get s idx = get_found idx.bytes (lookup s idx)

-- `delete(idx.ids, id)`
unfoldable pub remove_id : Bytes → List Bytes → List Bytes
remove_id id [] = []
remove_id id (x ∷ ids) = let rest = remove_id id ids in if eq_bytes x id then ids else x ∷ rest

abbrev pub delete_found : Bytes → TruncIndex → Option (ℕ × ℕ) → IndexResult (Unit {0}) × TruncIndex
delete_found id idx none = (err no_such_id, idx)
delete_found id idx (some (before, after)) = (
  ok tt,
  record { ids = remove_id id idx.ids; bytes = take before idx.bytes ++ drop after idx.bytes },
)

unfoldable pub delete : Bytes → TruncIndex → IndexResult (Unit {0}) × TruncIndex
unfolding lookup has_text remove_id
delete id idx =
    if has_text id idx.ids then delete_found id idx (lookup id idx) else (err no_such_id, idx)
