-- ===== src/TagStore.antt =====
-- `TagStore` of dotcloud/docker/tags.go. A map is the list of its entries. The file and the graph of
-- images are a world of any type; the file holds what `Save` wrote, or no JSON.
pub mod Tables
pub mod Lookups
pub mod Laws
pub mod Deletion
pub mod Examples
use docker_stuff.Base.{
  if◌then◌else◌, Bool, true, false, ◌||◌, List, [], ◌∷◌, ◌++◌, Option, none, some, Bytes, codes,
}
use docker_stuff.Text.Split.{eq_bytes, split, contains_byte}
use docker_stuff.Text.Trim.{has_prefix}
use docker_stuff.Names.{parse_repository_tag}
use docker_stuff.TagStore.Tables.{
  Repository, Repositories, find, put, erase, merge, ById, by_id, without_tag, first_prefix,
}

-- What `ReadFile` and `Unmarshal` find.
pub data Stored : Type 0 where
  absent unreadable : Stored
  holds : Repositories → Stored

pub data StoreError : Type 0 where
  not_exist read_failed write_failed : StoreError
  no_image no_tag empty_name illegal_tag graph_failed : StoreError
  conflict : StoreError

pub data StoreResult (A : Type 0) : Type 0 where
  ok : A → StoreResult A
  err : StoreError → StoreResult A

pub record Outside (W : Type 0) : Type 0 where
  pub read_file : W → Stored
  pub write_file : Repositories → W → Bool × W
  -- `graph.Get`: the identifier of the image.
  pub graph_get : Bytes → W → Option Bytes

pub record TagStore (W : Type 0) : Type 0 where
  pub repositories : Repositories
  pub world : W

abbrev pub default_tag : Bytes
default_tag = codes "latest"

abbrev pub or_default : Bytes → Bytes
or_default [] = default_tag
or_default (c ∷ tag) = c ∷ tag

abbrev pub image_result : StoreError → Option Bytes → StoreResult (Option Bytes)
image_result e none = err e
image_result e (some id) = ok (some id)

unfoldable pub validate_repo_name : Bytes → Option StoreError
validate_repo_name [] = some empty_name
validate_repo_name (c ∷ name) = none

unfoldable pub validate_tag_name : Bytes → Option StoreError
unfolding contains_byte
validate_tag_name [] = some empty_name
validate_tag_name (c ∷ name) =
    if contains_byte b'/' (c ∷ name) || contains_byte b':' (c ∷ name)
    then some illegal_tag
    else none

module _ {W : Type 0} (o : Outside W) where
  unfoldable pub save : TagStore W → StoreResult (Unit {0}) × TagStore W
  save store =
      let (good, world) = o.write_file store.repositories store.world in
      (if good then ok tt else err write_failed, record store { world = world })

  -- The entries of the file go into the map, and the others stay in it.
  abbrev pub reload_from : Stored → TagStore W → StoreResult (Unit {0}) × TagStore W
  reload_from absent store = (err not_exist, store)
  reload_from unreadable store = (err read_failed, store)
  reload_from (holds json) store =
      (ok tt, record store { repositories = merge json store.repositories })

  unfoldable pub reload : TagStore W → StoreResult (Unit {0}) × TagStore W
  unfolding merge
  reload store = reload_from (o.read_file store.world) store

  abbrev pub created : StoreResult (Unit {0}) × TagStore W → StoreResult (TagStore W) × W
  created (ok tt, store) = (ok store, store.world)
  created (err e, store) = (err e, store.world)

  abbrev pub new_reloaded : StoreResult (Unit {0}) × TagStore W → StoreResult (TagStore W) × W
  new_reloaded (ok tt, store) = (ok store, store.world)
  new_reloaded (err not_exist, store) = created (save store)
  new_reloaded (err e, store) = (err e, store.world)

  unfoldable pub new_tag_store : W → StoreResult (TagStore W) × W
  unfolding save reload
  new_tag_store world = new_reloaded (reload (record { repositories = []; world = world }))

  -- No repository is `none`.
  abbrev pub got :
      Bytes → StoreResult (Unit {0}) × TagStore W → StoreResult (Option Repository) × TagStore W
  got repo_name (err e, store) = (err e, store)
  got repo_name (ok tt, store) = (ok (find repo_name store.repositories), store)

  unfoldable pub get : Bytes → TagStore W → StoreResult (Option Repository) × TagStore W
  unfolding reload find
  get repo_name store = got repo_name (reload store)

  abbrev pub image_of : Bytes → Repository → TagStore W → StoreResult (Option Bytes)
  image_of tag_or_id repo store = elim (find tag_or_id repo) [
    | some revision ↦ image_result graph_failed (o.graph_get revision store.world)
    | none ↦ elim (first_prefix tag_or_id repo) [
      | some revision ↦ image_result graph_failed (o.graph_get revision store.world)
      | none ↦ ok none
    ]
  ]

  abbrev pub image_got :
      Bytes → StoreResult (Option Repository) × TagStore W → StoreResult (Option Bytes) × TagStore W
  image_got tag_or_id (err e, store) = (err e, store)
  image_got tag_or_id (ok none, store) = (ok none, store)
  image_got tag_or_id (ok (some repo), store) = (image_of tag_or_id repo store, store)

  unfoldable pub get_image : Bytes → Bytes → TagStore W → StoreResult (Option Bytes) × TagStore W
  unfolding get first_prefix
  get_image repo_name tag_or_id store = image_got tag_or_id (get repo_name store)

  abbrev pub needed : StoreResult (Option Bytes) × TagStore W → StoreResult Bytes × TagStore W
  needed (err e, store) = (err e, store)
  needed (ok none, store) = (err no_image, store)
  needed (ok (some id), store) = (ok id, store)

  abbrev pub lookup_tag : Bytes × Bytes → TagStore W → StoreResult Bytes × TagStore W
  lookup_tag (repos, tag) store = needed (get_image repos (or_default tag) store)

  abbrev pub lookup_from : Bytes → Option Bytes → TagStore W → StoreResult Bytes × TagStore W
  lookup_from name (some id) store = (ok id, store)
  lookup_from name none store = lookup_tag (parse_repository_tag name) store

  unfoldable pub lookup_image : Bytes → TagStore W → StoreResult Bytes × TagStore W
  unfolding get_image
  lookup_image name store = lookup_from name (o.graph_get name store.world) store

  abbrev pub with_answer :
      Bool → StoreResult (Unit {0}) × TagStore W → StoreResult Bool × TagStore W
  with_answer deleted (ok tt, store) = (ok deleted, store)
  with_answer deleted (err e, store) = (err e, store)

  abbrev pub delete_tag : Bytes → Bytes → Repository → TagStore W → StoreResult Bool × TagStore W
  delete_tag repo_name tag repo store = elim (find tag repo) [
    | none ↦ (err no_tag, store)
    | some id ↦
        with_answer true
          (save (record store { repositories = without_tag repo_name tag repo store.repositories }))
  ]

  abbrev pub delete_in :
      Bytes → Bytes → Option Repository → TagStore W → StoreResult Bool × TagStore W
  delete_in repo_name tag none store = with_answer false (save store)
  delete_in repo_name [] (some repo) store =
      with_answer true (save (record store { repositories = erase repo_name store.repositories }))
  delete_in repo_name (c ∷ tag) (some repo) store = delete_tag repo_name (c ∷ tag) repo store

  abbrev pub delete_reloaded :
      Bytes → Bytes → StoreResult (Unit {0}) × TagStore W → StoreResult Bool × TagStore W
  delete_reloaded repo_name tag (err e, store) = (err e, store)
  delete_reloaded repo_name tag (ok tt, store) =
      delete_in repo_name tag (find repo_name store.repositories) store

  unfoldable pub delete : Bytes → Bytes → TagStore W → StoreResult Bool × TagStore W
  unfolding reload save erase put
  delete repo_name tag store = delete_reloaded repo_name tag (reload store)

  -- A repository that is not there is looked up again: `force` is read there only.
  abbrev pub repository_for :
      Bytes → Bool → Option Repository → Repositories → StoreResult Repository
  repository_for repo_name force (some repo) repositories = ok repo
  repository_for repo_name force none repositories = elim (find repo_name repositories) [
    | none ↦ ok []
    | some old ↦ if force then ok [] else err conflict
  ]

  abbrev pub put_tag :
      Bytes
      → Bytes
      → Bytes
      → StoreResult Repository
      → TagStore W
      → StoreResult (Unit {0}) × TagStore W
  put_tag repo_name tag id (err e) store = (err e, store)
  put_tag repo_name tag id (ok repo) store =
      save (record store { repositories = put repo_name (put tag id repo) store.repositories })

  abbrev pub set_reloaded :
      Bytes
      → Bytes
      → Bytes
      → Bool
      → StoreResult (Unit {0}) × TagStore W
      → StoreResult (Unit {0}) × TagStore W
  set_reloaded repo_name tag id force (err e, store) = (err e, store)
  set_reloaded repo_name tag id force (ok tt, store) =
      put_tag repo_name tag id
        (repository_for repo_name force (find repo_name store.repositories) store.repositories)
        store

  abbrev pub set_checked :
      Option StoreError
      → Option StoreError
      → Bytes
      → Bytes
      → Bytes
      → Bool
      → TagStore W
      → StoreResult (Unit {0}) × TagStore W
  set_checked (some e) bad repo_name tag id force store = (err e, store)
  set_checked none (some e) repo_name tag id force store = (err e, store)
  set_checked none none repo_name tag id force store =
      set_reloaded repo_name tag id force (reload store)

  abbrev pub set_found :
      Bytes → Bytes → Bool → StoreResult Bytes × TagStore W → StoreResult (Unit {0}) × TagStore W
  set_found repo_name tag force (err e, store) = (err e, store)
  set_found repo_name tag force (ok id, store) =
      set_checked (validate_repo_name repo_name) (validate_tag_name tag) repo_name tag id force
        store

  unfoldable pub set :
      Bytes → Bytes → Bytes → Bool → TagStore W → StoreResult (Unit {0}) × TagStore W
  unfolding lookup_image reload save put find validate_repo_name validate_tag_name
  set repo_name tag image_name force store =
      set_found repo_name (or_default tag) force (lookup_image image_name store)

  -- `DeleteAll`: the text before the first colon of a name, and the one before the second.
  abbrev pub two_parts : List Bytes → Option (Bytes × Bytes)
  two_parts [] = none
  two_parts (repo_name ∷ []) = none
  two_parts (repo_name ∷ tag ∷ parts) = some (repo_name, tag)

  abbrev pub parts_of : Bytes → Bytes × Bytes
  parts_of name = elim (two_parts (split b':' name)) [ none ↦ (name, []) | some parts ↦ parts ]

  unfoldable pub delete_names : List Bytes → TagStore W → StoreResult (Unit {0}) × TagStore W
  unfolding delete split
  delete_names [] store = (ok tt, store)
  delete_names (name ∷ names) store =
      let (r, next) = delete (parts_of name).0 (parts_of name).1 store in
      elim r [ ok deleted ↦ delete_names names next | err e ↦ (err e, next) ]

  unfoldable pub delete_all : Bytes → TagStore W → StoreResult (Unit {0}) × TagStore W
  unfolding delete_names by_id find
  delete_all id store = elim (find id (by_id store.repositories)) [
    | none ↦ (ok tt, store)
    | some names ↦ delete_names names store
  ]
