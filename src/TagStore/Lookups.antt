-- ===== src/TagStore/Lookups.antt =====
-- What the maps of a store hold after an operation.
use docker_stuff.Base.{
  if◌then◌else◌, ◌≡◌, refl, sym, ap, ◌∙◌, Bool, true, false, ◌&&◌, List, [], ◌∷◌, Option, none,
  some, Bytes, Bool-cases, inl, inr, arith,
}
use docker_stuff.Text.Split.{eq_bytes, eq_bytes_iff}
use docker_stuff.Config.Merge.{or_else}
use docker_stuff.TagStore.Tables.{
  Repository, Repositories, find, put, erase, merge, is_nil, without_tag,
}

module _ {A : Type 0} where
  pub find-put :
      (k j : Bytes) (a : A) (m : List (Bytes × A))
      → find k (put j a m) ≡ (if eq_bytes j k then some a else find k m)
  unfolding find put
  find-put k j a [] = refl
  find-put k j a ((i, b) ∷ m) =
      ground (arith, eq_bytes_iff i j, eq_bytes_iff i k, eq_bytes_iff j k, find-put k j a m)

  pub find-erase :
      (k j : Bytes) (m : List (Bytes × A))
      → find k (erase j m) ≡ (if eq_bytes j k then none else find k m)
  unfolding find erase
  find-erase k j [] = ground arith
  find-erase k j ((i, b) ∷ m) =
      ground (arith, eq_bytes_iff i j, eq_bytes_iff i k, eq_bytes_iff j k, find-erase k j m)

  find-merge :
      (k : Bytes) (json m : List (Bytes × A))
      → find k (merge json m) ≡ or_else (find k json) (find k m)
  unfolding find merge
  find-merge k [] m = refl
  find-merge k ((j, a) ∷ json) m =
      find-put k j a (merge json m) ∙ ground (arith, find-merge k json m)

  or_else_same : (a : Option A) → or_else a a ≡ a
  or_else_same none = refl
  or_else_same (some a) = refl

  -- Merged with itself, a map holds the same.
  pub find-merge_same :
      (k : Bytes) (json m : List (Bytes × A))
      → find k m ≡ find k json
      → find k (merge json m) ≡ find k json
  find-merge_same k json m e =
      find-merge k json m ∙ ap (or_else (find k json)) e ∙ or_else_same (find k json)

-- The revision at a tag of a repository.
abbrev pub tag_in : Bytes → Option Repository → Option Bytes
tag_in tag none = none
tag_in tag (some repo) = find tag repo

abbrev pub tag_of : Bytes → Bytes → Repositories → Option Bytes
tag_of repo_name tag repositories = tag_in tag (find repo_name repositories)

abbrev pub or_empty : Option Repository → Repository
or_empty none = []
or_empty (some repo) = repo

find-or_empty :
    (tag : Bytes) (repo : Option Repository) → find tag (or_empty repo) ≡ tag_in tag repo
unfolding find
find-or_empty tag none = refl
find-or_empty tag (some repo) = refl

tag_in-if :
    (t : Bytes) (b : Bool) (o p : Option Repository)
    → tag_in t (if b then o else p) ≡ (if b then tag_in t o else tag_in t p)
tag_in-if t true o p = refl
tag_in-if t false o p = refl

tag_of-put_repository :
    (r t name : Bytes) (repo : Repository) (m : Repositories)
    → tag_of r t (put name repo m) ≡ (if eq_bytes name r then find t repo else tag_of r t m)
tag_of-put_repository r t name repo m =
    ap (tag_in t) (find-put r name repo m) ∙ tag_in-if t (eq_bytes name r) (some repo) (find r m)

-- Only at its own name a repository changes, and there only at one tag.
tag_changed :
    (r t name : Bytes) (c : Bool) (new : Option Bytes) (m : Repositories)
    → (if eq_bytes name r then (if c then new else tag_of name t m) else tag_of r t m)
      ≡ (if eq_bytes name r && c then new else tag_of r t m)
tag_changed r t name c new m = elim (Bool-cases (eq_bytes name r)) [
  | inl e ↦ rw e (ap (λ (k : Bytes). if c then new else tag_of k t m) ((eq_bytes_iff name r).0 e))
  | inr ne ↦ rw ne refl
]

pub tag_of-put :
    (r t name tag id : Bytes) (m : Repositories)
    → tag_of r t (put name (put tag id (or_empty (find name m))) m)
      ≡ (if eq_bytes name r && eq_bytes tag t then some id else tag_of r t m)
tag_of-put r t name tag id m =
    tag_of-put_repository r t name (put tag id (or_empty (find name m))) m
    ∙ ap (λ o. if eq_bytes name r then o else tag_of r t m)
        (find-put t tag id (or_empty (find name m))
          ∙ ap (λ o. if eq_bytes tag t then some id else o) (find-or_empty t (find name m)))
    ∙ tag_changed r t name (eq_bytes tag t) (some id) m

pub tag_of-erase :
    (r t name : Bytes) (m : Repositories)
    → tag_of r t (erase name m) ≡ (if eq_bytes name r then none else tag_of r t m)
tag_of-erase r t name m =
    ap (tag_in t) (find-erase r name m) ∙ tag_in-if t (eq_bytes name r) none (find r m)

-- An empty repository holds no more tags than none.
tag_of-without_empty :
    (r t name : Bytes) (repo : Repository) (m : Repositories)
    → tag_of r t (if is_nil repo then erase name (put name repo m) else put name repo m)
      ≡ tag_of r t (put name repo m)
unfolding find
tag_of-without_empty r t name (x ∷ repo) m = refl
tag_of-without_empty r t name [] m =
    tag_of-erase r t name (put name [] m)
    ∙ ap (λ o. if eq_bytes name r then none else o) (tag_of-put_repository r t name [] m)
    ∙ twice (eq_bytes name r)
    ∙ sym (tag_of-put_repository r t name [] m)
  where
    twice :
        (b : Bool)
        → (if b then none else (if b then none else tag_of r t m))
          ≡ (if b then none else tag_of r t m)
    twice true = refl
    twice false = refl

pub tag_of-without_tag :
    (r t name tag : Bytes) (repo : Repository) (m : Repositories)
    → find name m ≡ some repo
    → tag_of r t (without_tag name tag repo m)
      ≡ (if eq_bytes name r && eq_bytes tag t then none else tag_of r t m)
tag_of-without_tag r t name tag repo m there =
    tag_of-without_empty r t name (erase tag repo) m
    ∙ tag_of-put_repository r t name (erase tag repo) m
    ∙ ap (λ o. if eq_bytes name r then o else tag_of r t m)
        (find-erase t tag repo ∙ ap (λ o. if eq_bytes tag t then none else tag_in t o) (sym there))
    ∙ tag_changed r t name (eq_bytes tag t) none m

pub tag_of-missing :
    (r t name : Bytes) (b : Bool) (m : Repositories)
    → find name m ≡ none
    → tag_of r t m ≡ (if eq_bytes name r && b then none else tag_of r t m)
tag_of-missing r t name b m absent = elim (Bool-cases (eq_bytes name r)) [
  | inl e ↦ rw e (
      nothing b
        (ap (tag_in t) (ap (λ (k : Bytes). find k m) (sym ((eq_bytes_iff name r).0 e)) ∙ absent)))
  | inr ne ↦ rw ne refl
]
  where
    nothing : (b : Bool) → tag_of r t m ≡ none → tag_of r t m ≡ (if b then none else tag_of r t m)
    nothing true e = e
    nothing false e = refl

abbrev pub is_some {ℓ} : {A : Type ℓ} → Option A → Bool
is_some none = false
is_some (some a) = true

-- Whether a tag is deleted: the empty one stands for all.
abbrev pub is_tag : Bytes → Bytes → Bool
is_tag [] u = true
is_tag (c ∷ tag) u = eq_bytes (c ∷ tag) u
