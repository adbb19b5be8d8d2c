-- ===== src/TagStore/Tables.antt =====
-- The maps of a `TagStore`, `ByID` and `ImageName` of dotcloud/docker/tags.go.
use docker_stuff.Base.{
  ◌==◌, ltb, if◌then◌else◌, Bool, true, false, List, [], ◌∷◌, ◌++◌, Option, none, some, Bytes,
}
use docker_stuff.Text.Split.{eq_bytes}
use docker_stuff.Text.Trim.{has_prefix}
use docker_stuff.Names.{truncate_id}

module _ {A : Type 0} where
  -- `m[k]`
  unfoldable pub find : Bytes → List (Bytes × A) → Option A
  find k [] = none
  find k ((j, a) ∷ m) = let rest = find k m in if eq_bytes j k then some a else rest

  -- `m[k] = a`
  unfoldable pub put : Bytes → A → List (Bytes × A) → List (Bytes × A)
  put k a [] = (k, a) ∷ []
  put k a ((j, b) ∷ m) = let rest = put k a m in if eq_bytes j k then (k, a) ∷ m else (j, b) ∷ rest

  -- `delete(m, k)`
  unfoldable pub erase : Bytes → List (Bytes × A) → List (Bytes × A)
  erase k [] = []
  erase k ((j, a) ∷ m) = let rest = erase k m in if eq_bytes j k then rest else (j, a) ∷ rest

  -- What `Unmarshal` does with a map that is there.
  unfoldable pub merge : List (Bytes × A) → List (Bytes × A) → List (Bytes × A)
  unfolding put
  merge [] m = m
  merge ((k, a) ∷ json) m = put k a (merge json m)

  abbrev pub is_nil : List A → Bool
  is_nil [] = true
  is_nil (x ∷ l) = false

abbrev pub Repository : Type 0
Repository = List (Bytes × Bytes)

abbrev pub Repositories : Type 0
Repositories = List (Bytes × Repository)

abbrev pub ById : Type 0
ById = List (Bytes × List Bytes)

-- A tag is taken out of its repository, and an empty repository out of the store.
abbrev pub without_tag : Bytes → Bytes → Repository → Repositories → Repositories
without_tag repo_name tag repo repositories =
    let rest = erase tag repo in
    if is_nil rest
    then erase repo_name (put repo_name rest repositories)
    else put repo_name rest repositories

-- The first revision with a prefix
unfoldable pub first_prefix : Bytes → Repository → Option Bytes
unfolding has_prefix
first_prefix prefix [] = none
first_prefix prefix ((tag, revision) ∷ repo) =
    let rest = first_prefix prefix repo in
    if has_prefix prefix revision then some revision else rest

-- `<` on strings
unfoldable pub less : Bytes → Bytes → Bool
less s [] = false
less [] (b ∷ t) = true
less (a ∷ s) (b ∷ t) = if ltb a b then true else if a == b then less s t else false

-- `append` and `sort.Strings`, for names that are sorted already.
unfoldable pub insert_name : Bytes → List Bytes → List Bytes
unfolding less
insert_name name [] = name ∷ []
insert_name name (n ∷ names) =
    let rest = insert_name name names in if less name n then name ∷ n ∷ names else n ∷ rest

unfoldable pub add_name : Bytes → Bytes → ById → ById
unfolding find put insert_name
add_name id name ids = elim (find id ids) [
  | none ↦ put id (name ∷ []) ids
  | some names ↦ put id (insert_name name names) ids
]

unfoldable pub add_tags : Bytes → Repository → ById → ById
unfolding add_name
add_tags repo_name [] ids = ids
add_tags repo_name ((tag, id) ∷ repo) ids =
    add_tags repo_name repo (add_name id (repo_name ++ b':' ∷ tag) ids)

abbrev pub add_repositories : Repositories → ById → ById
add_repositories [] ids = ids
add_repositories ((repo_name, repo) ∷ repositories) ids =
    add_repositories repositories (add_tags repo_name repo ids)

unfoldable pub by_id : Repositories → ById
unfolding add_tags
by_id repositories = add_repositories repositories []

abbrev name_found : Bytes → Option (List Bytes) → Bytes
name_found id none = truncate_id id
name_found id (some []) = truncate_id id
name_found id (some (name ∷ names)) = name

unfoldable pub image_name : Bytes → Repositories → Bytes
unfolding by_id find truncate_id
image_name id repositories = name_found id (find id (by_id repositories))
