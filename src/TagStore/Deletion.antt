-- ===== src/TagStore/Deletion.antt =====
-- What `Delete` does to the tags of a store, on disk and in memory.
use docker_stuff.Base.{
  Option-cases, if◌then◌else◌, ◌≡◌, refl, sym, ap, ◌∙◌, Bool, true, false, ◌&&◌, [], ◌∷◌, Option,
  none, some, Bytes, inl, inr,
}
use docker_stuff.Text.Split.{eq_bytes}
use docker_stuff.TagStore.Tables.{Repository, Repositories, find, erase, without_tag}
use docker_stuff.TagStore.Lookups.{
  tag_in, tag_of, tag_of-erase, tag_of-without_tag, tag_of-missing, is_some, is_tag,
}
use docker_stuff.TagStore.{
  holds, StoreError, StoreResult, ok, err, Outside, TagStore, save, with_answer, delete_tag,
  delete_in, delete_reloaded, delete,
}
use docker_stuff.TagStore.Laws.{InSync, Same, reloaded, reload-Same, reloaded-Same, save-InSync}

module _ {W : Type 0} (o : Outside W)
    (saved : (m : Repositories) (w : W)
      → (o.write_file m w).0 ≡ true
      → o.read_file (o.write_file m w).1 ≡ holds m) where
  answered :
      (d d' : Bool) (r : StoreResult (Unit {0}) × TagStore W) (t : TagStore W)
      → with_answer o d r ≡ (ok d', t)
      → (d ≡ d') × (r ≡ (ok tt, t))
  answered d d' (ok tt, s) t e = (
    ap result (ap (λ (r : StoreResult Bool × TagStore W). r.0) e),
    ap (λ (r : StoreResult Bool × TagStore W). (ok tt, r.1)) e,
  )
    where
      result : StoreResult Bool → Bool
      result (ok b) = b
      result (err x) = d
  answered d d' (err x, s) t e =
      elim (absurd (ap (λ (r : StoreResult Bool × TagStore W). r.0) e)) [ ]
    where
      absurd : ◌≡◌ {A = StoreResult Bool} (err x) (ok d') → ⊥
      absurd e = cc

  -- `Delete` of a tag, or of all tags for the empty one, with the answer whether the repository was there.
  IsDeleted : TagStore W → Bytes → Bytes → Bool → TagStore W → Type 0
  IsDeleted s name tag deleted t =
      InSync o t
      × (deleted ≡ is_some (find name s.repositories))
      × ((r u : Bytes)
          → tag_of r u t.repositories
            ≡ (if eq_bytes name r && is_tag tag u then none else tag_of r u s.repositories))

  save_answered :
      (m t : TagStore W) (d deleted : Bool)
      → with_answer o d (save o m) ≡ (ok deleted, t)
      → InSync o t × (deleted ≡ d) × (t.repositories ≡ m.repositories)
  save_answered m t d deleted e =
      let (same, good) = answered d deleted (save o m) t e in
      let (sync, now) = save-InSync o saved m t good in (sync, sym same, now)

  delete_in-IsDeleted :
      (s m t : TagStore W) (name tag : Bytes) (deleted : Bool) (repo : Option Repository)
      → Same o s m
      → find name m.repositories ≡ repo
      → delete_in o name tag repo m ≡ (ok deleted, t)
      → IsDeleted s name tag deleted t
  unfolding IsDeleted
  delete_in-IsDeleted s m t name tag deleted none same there e =
      let (sync, d, now) = save_answered m t false deleted e in
      (
        sync,
        d ∙ ap is_some (sym there ∙ same.1 name),
        λ r u.
            ap (tag_of r u) now
            ∙ ap (tag_in u) (same.1 r)
            ∙ tag_of-missing r u name (is_tag tag u) s.repositories (sym (same.1 name) ∙ there),
      )
  delete_in-IsDeleted s m t name [] deleted (some repo) same there e =
      let (sync, d, now) =
        save_answered (record m { repositories = erase name m.repositories }) t true deleted e in
      (
        sync,
        d ∙ ap is_some (sym there ∙ same.1 name),
        λ r u.
            ap (tag_of r u) now
            ∙ tag_of-erase r u name m.repositories
            ∙ every (eq_bytes name r) (ap (tag_in u) (same.1 r)),
      )
    where
      every :
          {x y : Option Bytes} (b : Bool)
          → x ≡ y
          → (if b then none else x) ≡ (if b && true then none else y)
      every true e = refl
      every false e = e
  delete_in-IsDeleted s m t name (c ∷ tag) deleted (some repo) same there e =
      elim (Option-cases (find (c ∷ tag) repo)) [
        | inl missing ↦ elim (no_answer (rw (missing, delete_in, delete_tag) at e)) [ ]
        | inr (id, tagged) ↦
            let (sync, d, now) =
              save_answered
                (record m { repositories = without_tag name (c ∷ tag) repo m.repositories }) t true
                deleted (rw (tagged, delete_in, delete_tag) at e) in
            (
              sync,
              d ∙ ap is_some (sym there ∙ same.1 name),
              λ r u.
                  ap (tag_of r u) now
                  ∙ tag_of-without_tag r u name (c ∷ tag) repo m.repositories there
                  ∙ ap (λ p. if eq_bytes name r && eq_bytes (c ∷ tag) u then none else tag_in u p)
                      (same.1 r),
            )
      ]
    where
      no_answer :
          {x : StoreError} → ◌≡◌ {A = StoreResult Bool × TagStore W} (err x, m) (ok deleted, t) → ⊥
      no_answer e = cc

  -- If a write without an error is read back, a Delete without an error, on a store whose file
  -- holds what it has in memory, leaves such a store, without the tag, or for the empty tag
  -- without any tag of the repository, and with every other tag as before; it answers whether
  -- the repository was there.
  pub delete_lem :
      (s t : TagStore W) (name tag : Bytes) (deleted : Bool)
      → InSync o s
      → delete o name tag s ≡ (ok deleted, t)
      → InSync o t
        × (deleted ≡ is_some (find name s.repositories))
        × ((r u : Bytes)
            → tag_of r u t.repositories
              ≡ (if eq_bytes name r && is_tag tag u then none else tag_of r u s.repositories))
  unfolding delete IsDeleted
  delete_lem s t name tag deleted sync e =
      let same : Same o s s = (refl, λ k. refl) in
      delete_in-IsDeleted s (reloaded o s s) t name tag deleted
        (find name (reloaded o s s).repositories) (reloaded-Same o s s same) refl
        (ap (delete_reloaded o name tag) (sym (reload-Same o s s sync same)) ∙ e)
