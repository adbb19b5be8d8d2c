-- ===== src/Names/TruncIndex/Spec.antt =====
-- An index by what it promises: a list of identifiers, each found by any prefix that is its alone.
use docker_stuff.Base.{if◌then◌else◌, List, [], ◌∷◌, ◌++◌, Bytes}
use docker_stuff.Text.Split.{contains_byte, has_text}
use docker_stuff.Names.TruncIndex.{
  illegal_character, already_exists, no_such_id, IndexResult, ok, err, remove_id,
}
use docker_stuff.Names.TruncIndex.Offsets.{matching}

abbrev pub only : List Bytes → IndexResult Bytes
only [] = err no_such_id
only (x ∷ []) = ok x
only (x ∷ y ∷ l) = err no_such_id

abbrev pub get_spec : Bytes → List Bytes → IndexResult Bytes
get_spec s ids = only (matching s ids)

abbrev pub add_spec : Bytes → List Bytes → IndexResult (Unit {0}) × List Bytes
add_spec id ids =
    if contains_byte b' ' id
    then (err illegal_character, ids)
    else if has_text id ids
    then (err already_exists, ids)
    else (ok tt, ids ++ id ∷ [])

abbrev pub delete_only : Bytes → List Bytes → List Bytes → IndexResult (Unit {0}) × List Bytes
delete_only id ids [] = (err no_such_id, ids)
delete_only id ids (x ∷ []) = (ok tt, remove_id id ids)
delete_only id ids (x ∷ y ∷ l) = (err no_such_id, ids)

-- An identifier that is a prefix of another one is not deleted.
abbrev pub delete_spec : Bytes → List Bytes → IndexResult (Unit {0}) × List Bytes
delete_spec id ids =
    if has_text id ids then delete_only id ids (matching id ids) else (err no_such_id, ids)
