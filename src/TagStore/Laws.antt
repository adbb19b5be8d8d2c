-- ===== src/TagStore/Laws.antt =====
-- What `Set` does to the tags of a store, on disk and in memory.
use docker_stuff.Base.{
  if◌then◌else◌, ◌≡◌, refl, sym, ap, ◌∙◌, Bool, true, false, ◌&&◌, [], Option, none, some, Bytes,
}
use mathlib.Core.Path.{subst}
use docker_stuff.Text.Split.{eq_bytes}
use docker_stuff.TagStore.Tables.{Repository, Repositories, find, merge}
use docker_stuff.TagStore.Lookups.{find-merge_same, tag_in, tag_of, or_empty, tag_of-put}
use docker_stuff.TagStore.{
  Stored, holds, StoreError, StoreResult, ok, err, write_failed, Outside, TagStore, or_default,
  validate_repo_name, validate_tag_name, save, reload_from, reload, got, get, image_got, get_image,
  needed, lookup_from, lookup_image, repository_for, put_tag, set_reloaded, set_checked, set_found,
  set,
}
use docker_stuff.Names.{parse_repository_tag}

module _ {W : Type 0} (o : Outside W) where
  -- The file holds what the store has in memory.
  abbrev pub InSync : TagStore W → Type 0
  InSync s = o.read_file s.world ≡ holds s.repositories

  -- A store with the same file, and the same maps but for the order of their entries.
  abbrev pub Same : TagStore W → TagStore W → Type 0
  Same s t = (t.world ≡ s.world) × ((k : Bytes) → find k t.repositories ≡ find k s.repositories)

  abbrev pub reloaded : TagStore W → TagStore W → TagStore W
  reloaded s t = record t { repositories = merge s.repositories t.repositories }

  pub reload-Same : (s t : TagStore W) → InSync s → Same s t → reload o t ≡ (ok tt, reloaded s t)
  unfolding reload
  reload-Same s t sync same = ap (λ (f : Stored). reload_from o f t) (ap o.read_file same.0 ∙ sync)

  pub reloaded-Same : (s t : TagStore W) → Same s t → Same s (reloaded s t)
  reloaded-Same s t (w, same) = (w, λ k. find-merge_same k s.repositories t.repositories (same k))

  got-Same : (s t : TagStore W) (name : Bytes) → InSync s → Same s t → Same s (get o name t).1
  unfolding get
  got-Same s t name sync same =
      subst (λ (r : StoreResult (Unit {0}) × TagStore W). Same s (got o name r).1)
        (sym (reload-Same s t sync same)) (reloaded-Same s t same)

  image_got-Same :
      (s : TagStore W) (tag : Bytes) (r : StoreResult (Option Repository) × TagStore W)
      → Same s r.1
      → Same s (image_got o tag r).1
  image_got-Same s tag (err e, t) same = same
  image_got-Same s tag (ok none, t) same = same
  image_got-Same s tag (ok (some repo), t) same = same

  needed-Same :
      (s : TagStore W) (r : StoreResult (Option Bytes) × TagStore W)
      → Same s r.1
      → Same s (needed o r).1
  needed-Same s (err e, t) same = same
  needed-Same s (ok none, t) same = same
  needed-Same s (ok (some id), t) same = same

  lookup_from-Same :
      (s : TagStore W) (name : Bytes) (id : Option Bytes)
      → InSync s
      → Same s (lookup_from o name id s).1
  unfolding get_image
  lookup_from-Same s name (some id) sync = (refl, λ k. refl)
  lookup_from-Same s name none sync =
      let (repos, tag) = parse_repository_tag name in
      needed-Same s (get_image o repos (or_default tag) s) (
        image_got-Same s (or_default tag) (get o repos s)
          (got-Same s s repos sync (refl, λ k. refl)))

  lookup_image-Same : (s : TagStore W) (name : Bytes) → InSync s → Same s (lookup_image o name s).1
  unfolding lookup_image
  lookup_image-Same s name sync = lookup_from-Same s name (o.graph_get name s.world) sync

  -- A repository is new or the old one, whatever `force` is.
  repository_for_lem :
      (name : Bytes) (force : Bool) (m : Repositories)
      → repository_for o name force (find name m) m ≡ ok (or_empty (find name m))
  repository_for_lem name force m = go (find name m) refl
    where
      missing : find name m ≡ none → repository_for o name force none m ≡ ok []
      missing e = rw (e, repository_for) refl

      go :
          (r : Option Repository)
          → find name m ≡ r
          → repository_for o name force (find name m) m ≡ ok (or_empty (find name m))
      go none e = rw e (missing e)
      go (some repo) e = rw e refl

  -- A write without an error is read back.
  module _
      (saved : (m : Repositories) (w : W)
        → (o.write_file m w).0 ≡ true
        → o.read_file (o.write_file m w).1 ≡ holds m) where
    written :
        (good : Bool) (s t : TagStore W)
        → ◌≡◌ {A = StoreResult (Unit {0}) × TagStore W}
            (if good then ok tt else err write_failed, s)
            (ok tt, t)
        → (good ≡ true) × (s ≡ t)
    written true s t e = (refl, ap (λ (r : StoreResult (Unit {0}) × TagStore W). r.1) e)
    written false s t e =
        elim (absurd (ap (λ (r : StoreResult (Unit {0}) × TagStore W). r.0) e)) [ ]
      where
        absurd : ◌≡◌ {A = StoreResult (Unit {0})} (err write_failed) (ok tt) → ⊥
        absurd e = cc

    pub save-InSync :
        (s t : TagStore W) → save o s ≡ (ok tt, t) → InSync t × (t.repositories ≡ s.repositories)
    unfolding save
    save-InSync s t e =
        let (good, same) =
          written (o.write_file s.repositories s.world).0
            (record s { world = (o.write_file s.repositories s.world).1 }) t e in
        (
          ap (λ (u : TagStore W). o.read_file u.world) (sym same)
              ∙ saved s.repositories s.world good
              ∙ ap (λ (u : TagStore W). holds u.repositories) same,
          ap (λ (u : TagStore W). u.repositories) (sym same),
        )

    -- `Set` behind the tests, from a store that was looked up.
    IsTagged : TagStore W → Bytes → Bytes → Bytes → TagStore W → Type 0
    IsTagged s name tag id t =
        InSync t
        × ((r u : Bytes)
            → tag_of r u t.repositories
              ≡ (if eq_bytes name r && eq_bytes tag u then some id else tag_of r u s.repositories))

    put_tag-IsTagged :
        (s m t : TagStore W) (name tag id : Bytes) (force : Bool)
        → Same s m
        → set_reloaded o name tag id force (ok tt, m) ≡ (ok tt, t)
        → IsTagged s name tag id t
    unfolding IsTagged
    put_tag-IsTagged s m t name tag id force same e =
        let put_in : StoreResult Repository → StoreResult (Unit {0}) × TagStore W =
          λ r. put_tag o name tag id r m in
        let saving = ap put_in (sym (repository_for_lem name force m.repositories)) ∙ e in
        let (sync, now) = save-InSync _ t saving in
        (
          sync,
          λ r u.
              ap (tag_of r u) now
              ∙ tag_of-put r u name tag id m.repositories
              ∙ ap (λ p. if eq_bytes name r && eq_bytes tag u then some id else tag_in u p)
                  (same.1 r),
        )

    set_found-IsTagged :
        (s t : TagStore W) (name tag : Bytes) (force : Bool) (r : StoreResult Bytes × TagStore W)
        → InSync s
        → Same s r.1
        → set_found o name tag force r ≡ (ok tt, t)
        → (id : Bytes) × (r.0 ≡ ok id) × IsTagged s name tag id t
    set_found-IsTagged s t name tag force (err x, m) sync same e =
        elim (absurd (ap (λ (r : StoreResult (Unit {0}) × TagStore W). r.0) e)) [ ]
      where
        absurd : ◌≡◌ {A = StoreResult (Unit {0})} (err x) (ok tt) → ⊥
        absurd e = cc
    set_found-IsTagged s t name tag force (ok id, m) sync same e =
        (id, refl, go (validate_repo_name name) (validate_tag_name tag) e)
      where
        absurd : (x : StoreError) → ◌≡◌ {A = StoreResult (Unit {0})} (err x) (ok tt) → ⊥
        absurd x e = cc

        go :
            (bad_name bad_tag : Option StoreError)
            → set_checked o bad_name bad_tag name tag id force m ≡ (ok tt, t)
            → IsTagged s name tag id t
        go (some x) bad_tag e =
            elim (absurd x (ap (λ (r : StoreResult (Unit {0}) × TagStore W). r.0) e)) [ ]
        go none (some x) e =
            elim (absurd x (ap (λ (r : StoreResult (Unit {0}) × TagStore W). r.0) e)) [ ]
        go none none e =
            put_tag-IsTagged s (reloaded s m) t name tag id force (reloaded-Same s m same)
              (ap (set_reloaded o name tag id force) (sym (reload-Same s m sync same)) ∙ e)

    -- If a write without an error is read back, a Set without an error, on a store whose file
    -- holds what it has in memory, leaves such a store, in which the tag, or latest for the
    -- empty one, is that of the image which the name stood for, and every other tag of every
    -- repository is as before, whether or not it was forced.
    pub set_lem :
        (s t : TagStore W) (name tag image : Bytes) (force : Bool)
        → InSync s
        → set o name tag image force s ≡ (ok tt, t)
        → InSync t
          × (id : Bytes) × ((lookup_image o image s).0 ≡ ok id)
          × ((r u : Bytes)
              → tag_of r u t.repositories ≡ (
                  if eq_bytes name r && eq_bytes (or_default tag) u
                  then some id
                  else tag_of r u s.repositories))
    unfolding set IsTagged
    set_lem s t name tag image force sync e =
        let (id, found, (now, tags)) =
          set_found-IsTagged s t name (or_default tag) force (lookup_image o image s) sync
            (lookup_image-Same s image sync) e in
        (now, id, found, tags)
