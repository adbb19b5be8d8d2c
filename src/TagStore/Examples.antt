-- ===== src/TagStore/Examples.antt =====
-- A store over a file that can always be written, and a graph of one image.
use docker_stuff.Base.{
  if◌then◌else◌, ◌&&◌, ◌≡◌, refl, true, false, [], ◌∷◌, none, some, Bytes, codes,
}
use docker_stuff.Text.Split.{eq_bytes, contains_byte, split, onto_first}
use docker_stuff.Names.{parse_repository_tag, cut_last}
use docker_stuff.TagStore.Tables.{
  Repositories, find, put, erase, merge, by_id, add_tags, add_name, insert_name, less, image_name,
}
use docker_stuff.TagStore.Lookups.{tag_of, is_some, is_tag}
use docker_stuff.TagStore.{
  Stored, absent, holds, ok, Outside, TagStore, save, reload, get, get_image, lookup_image, delete,
  set, validate_repo_name, validate_tag_name, delete_names, delete_all, new_tag_store,
}
use docker_stuff.TagStore.Laws.{InSync, set_lem}
use docker_stuff.TagStore.Deletion.{delete_lem}

abbrev disk : Outside Stored
disk = record {
  read_file = λ file. file;
  write_file = λ m file. (true, holds m);
  graph_get =
      λ name file. if eq_bytes name (codes "83599e29") then some (codes "83599e29") else none;
}

abbrev store_of : Repositories → TagStore Stored
store_of m = record { repositories = m; world = holds m }

abbrev one_tag : Repositories
one_tag = (codes "base", (codes "latest", codes "83599e29") ∷ []) ∷ []

abbrev two_tags : Repositories
two_tags =
    (codes "base", (codes "latest", codes "83599e29") ∷ (codes "v1", codes "83599e29") ∷ []) ∷ []

one_more_tag :
    set disk (codes "base") (codes "v1") (codes "base") false (store_of one_tag)
    ≡ (ok tt, store_of two_tags)
unfolding set lookup_image get_image get reload save find put merge parse_repository_tag cut_last
    contains_byte eq_bytes validate_repo_name validate_tag_name
one_more_tag = refl

one_tag_less :
    delete disk (codes "base") (codes "v1") (store_of two_tags) ≡ (ok true, store_of one_tag)
unfolding delete reload save find put erase merge eq_bytes
one_tag_less = refl

set_lem_example :
    InSync disk (store_of two_tags)
    × (id : Bytes) × ((lookup_image disk (codes "base") (store_of one_tag)).0 ≡ ok id)
    × ((r u : Bytes)
        → tag_of r u two_tags ≡ (
            if eq_bytes (codes "base") r && eq_bytes (codes "v1") u
            then some id
            else tag_of r u one_tag))
set_lem_example =
    set_lem disk (λ m w e. refl) (store_of one_tag) (store_of two_tags) (codes "base") (codes "v1")
      (codes "base") false refl one_more_tag

delete_lem_example :
    InSync disk (store_of one_tag)
    × (true ≡ is_some (find (codes "base") two_tags))
    × ((r u : Bytes)
        → tag_of r u one_tag ≡ (
            if eq_bytes (codes "base") r && is_tag (codes "v1") u
            then none
            else tag_of r u two_tags))
delete_lem_example =
    delete_lem disk (λ m w e. refl) (store_of two_tags) (store_of one_tag) (codes "base")
      (codes "v1") true refl one_tag_less

-- A repository on a registry with a port keeps its tags: its names have two colons.
abbrev on_registry : Repositories
on_registry = (codes "registry:5000/base", (codes "latest", codes "83599e29") ∷ []) ∷ []

registry_kept :
    delete_all disk (codes "83599e29") (store_of on_registry) ≡ (ok tt, store_of on_registry)
unfolding delete_all delete_names delete reload save find put erase merge by_id add_tags add_name
    insert_name less split onto_first eq_bytes
registry_kept = refl

all_gone : delete_all disk (codes "83599e29") (store_of two_tags) ≡ (ok tt, store_of [])
unfolding delete_all delete_names delete reload save find put erase merge by_id add_tags add_name
    insert_name less split onto_first eq_bytes
all_gone = refl

first_name : image_name (codes "83599e29") two_tags ≡ codes "base:latest"
unfolding image_name by_id add_tags add_name insert_name less find put eq_bytes
first_name = refl

new_store : (new_tag_store disk absent).1 ≡ holds []
unfolding new_tag_store reload save
new_store = refl
