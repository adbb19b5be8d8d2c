-- ===== src/Names/TruncIndex/Steps.antt =====
-- Each operation of an index is the one that is promised.
use docker_stuff.Base.{
  ℕ, suc, ◌+◌, ◌≡◌, refl, sym, ap, ◌∙◌, true, false, List, [], ◌∷◌, ◌++◌, Option, none, some, Bytes,
  length, All, All-append, Bool-cases, inl, inr, arith,
}
use mathlib.Core.Path.{subst}
use docker_stuff.Text.Split.{Lacks, eq_bytes, eq_bytes_iff, contains_byte, has_text}
use docker_stuff.Text.Trim.{has_prefix}
use docker_stuff.Names.TruncIndex.{
  TruncIndex, IndexResult, add, lookup, get, get_found, remove_id, delete, delete_found,
}
use docker_stuff.Names.TruncIndex.Offsets.{joined, joined-append, matching, matching_cons}
use docker_stuff.Names.TruncIndex.Spec.{only, get_spec, add_spec, delete_only, delete_spec}
use docker_stuff.Names.TruncIndex.Segments.{
  kept, Segments, kept-append, matching-kept, slice_found, bytes_deleted, lookup-none, lookup_one,
}

pub get_lem :
    (idx : TruncIndex) (c : ℕ) (s : Bytes) (gs : List Bytes)
    → Segments idx gs
    → Lacks b' ' (c ∷ s)
    → get (c ∷ s) idx ≡ get_spec (c ∷ s) idx.ids
unfolding get
get_lem idx c s gs seg h = go (matching (c ∷ s) idx.ids) refl
  where
    go :
        (l : List Bytes)
        → matching (c ∷ s) idx.ids ≡ l
        → get_found idx.bytes (lookup (c ∷ s) idx) ≡ get_spec (c ∷ s) idx.ids
    go [] e =
        ap (get_found idx.bytes) (
          lookup-none idx c s gs seg h (λ f. omega (arith, f, ap (λ (l : List Bytes). length l) e)))
        ∙ ap only (sym e)
    go (x ∷ []) e =
        let (pre, post, whole, fresh, around, at) = lookup_one idx c s x gs seg h e in
        ap (get_found idx.bytes) at ∙ slice_found idx.bytes x pre post around ∙ ap only (sym e)
    go (x ∷ y ∷ l) e =
        ap (get_found idx.bytes) (
          lookup-none idx c s gs seg h (λ f. omega (arith, f, ap (λ (l : List Bytes). length l) e)))
        ∙ ap only (sym e)

has_prefix_self : (s : Bytes) → has_prefix s s ≡ true
unfolding has_prefix
has_prefix_self [] = refl
has_prefix_self (c ∷ s) = ground (arith, has_prefix_self s)

has_text-matching :
    (id : Bytes) (l : List Bytes) → has_text id l ≡ true → has_text id (matching id l) ≡ true
unfolding has_text matching
has_text-matching id [] h = h
has_text-matching id (g ∷ l) h = elim (Bool-cases (eq_bytes g id)) [
  | inl e ↦
      let self : has_prefix id g ≡ true =
        subst (λ t. has_prefix id t ≡ true) (sym ((eq_bytes_iff g id).0 e)) (has_prefix_self id) in
      rw (matching_cons id g l self) (ground arith)
  | inr ne ↦ ground (arith, has_text-matching id l)
]

remove_id-append :
    (id : Bytes) (a b : List Bytes) → has_text id a ≡ false → remove_id id (a ++ id ∷ b) ≡ a ++ b
unfolding remove_id has_text
remove_id-append id [] b h = ground (arith, eq_bytes_iff id id)
remove_id-append id (g ∷ a) b h = ground (arith, remove_id-append id a b)

lacks_id : (id : Bytes) (l : List Bytes) → matching id l ≡ [] → has_text id l ≡ false
unfolding has_text
lacks_id id l e = elim (Bool-cases (has_text id l)) [
  | inl h ↦ elim (absurd (sym (ap (has_text id) e) ∙ has_text-matching id l h)) [ ]
  | inr h ↦ h
]
  where
    absurd : false ≡ true → ⊥
    absurd e = cc

-- The only identifier with a prefix that is itself an identifier is that one.
only_itself :
    (id x : Bytes) (ids : List Bytes) → has_text id ids ≡ true → matching id ids ≡ x ∷ [] → x ≡ id
unfolding has_text
only_itself id x ids h e =
    (eq_bytes_iff x id).0 (one (sym (ap (has_text id) e) ∙ has_text-matching id ids h))
  where
    one : has_text id (x ∷ []) ≡ true → eq_bytes x id ≡ true
    one h = ground arith

-- What an operation answers and leaves is what is promised, and the bytes still have segments.
abbrev pub Agrees :
    IndexResult (Unit {0}) × TruncIndex → IndexResult (Unit {0}) × List Bytes → Type 0
Agrees (r, new) spec =
    (gs : List Bytes) × Segments new gs
    × (◌≡◌ {A = IndexResult (Unit {0}) × List Bytes} (r, new.ids) spec)

delete_one :
    (idx : TruncIndex) (c : ℕ) (s : Bytes) (gs pre post : List Bytes)
    → Segments idx gs
    → gs ≡ pre ++ (c ∷ s) ∷ post
    → matching (c ∷ s) pre ≡ []
    → remove_id (c ∷ s) idx.ids ≡ kept (pre ++ [] ∷ post)
delete_one idx c s gs pre post (bytes, ids, lacks) whole fresh =
    ap (remove_id (c ∷ s)) (ids ∙ ap kept whole ∙ kept-append pre ((c ∷ s) ∷ post))
    ∙ remove_id-append (c ∷ s) (kept pre) (kept post)
        (lacks_id (c ∷ s) (kept pre) (matching-kept c s pre ∙ fresh))
    ∙ sym (kept-append pre ([] ∷ post))

All-replace :
    (pre post : List Bytes) (x : Bytes)
    → All (Lacks b' ') (pre ++ x ∷ post)
    → All (Lacks b' ') (pre ++ [] ∷ post)
All-replace [] post x h = (tt, h.1)
All-replace (g ∷ pre) post x h = (h.0, All-replace pre post x h.1)

Agrees-found :
    (idx : TruncIndex) (id : Bytes) (found : Option (ℕ × ℕ)) (l : List Bytes)
    → lookup id idx ≡ found
    → matching id idx.ids ≡ l
    → Agrees (delete_found id idx found) (delete_only id idx.ids l)
    → Agrees (delete_found id idx (lookup id idx)) (delete_only id idx.ids (matching id idx.ids))
Agrees-found idx id found l at e t =
    subst (λ f. Agrees (delete_found id idx f) (delete_only id idx.ids (matching id idx.ids)))
      (sym at)
      (subst (λ m. Agrees (delete_found id idx found) (delete_only id idx.ids m)) (sym e) t)

contains_byte_none : (b : ℕ) (s : Bytes) → contains_byte b s ≡ false → Lacks b s
unfolding contains_byte
contains_byte_none b [] h = tt
contains_byte_none b (c ∷ s) h = ((λ e. ground arith), contains_byte_none b s (ground arith))

pub delete_lem :
    (idx : TruncIndex) (c : ℕ) (s : Bytes) (gs : List Bytes)
    → Segments idx gs
    → Lacks b' ' (c ∷ s)
    → Agrees (delete (c ∷ s) idx) (delete_spec (c ∷ s) idx.ids)
unfolding delete
delete_lem idx c s gs seg h = elim (Bool-cases (has_text (c ∷ s) idx.ids)) [
  | inl there ↦ rw there (go there (matching (c ∷ s) idx.ids) refl)
  | inr absent ↦ rw absent (gs, seg, refl)
]
  where
    go :
        has_text (c ∷ s) idx.ids ≡ true
        → (l : List Bytes) → matching (c ∷ s) idx.ids ≡ l
        → Agrees
            (delete_found (c ∷ s) idx (lookup (c ∷ s) idx))
            (delete_only (c ∷ s) idx.ids (matching (c ∷ s) idx.ids))
    go there [] e =
        Agrees-found idx (c ∷ s) none []
          (lookup-none idx c s gs seg h
            (λ f. omega (arith, f, ap (λ (l : List Bytes). length l) e)))
          e (gs, seg, refl)
    go there (x ∷ y ∷ l) e =
        Agrees-found idx (c ∷ s) none (x ∷ y ∷ l)
          (lookup-none idx c s gs seg h
            (λ f. omega (arith, f, ap (λ (l : List Bytes). length l) e)))
          e (gs, seg, refl)
    go there (x ∷ []) e =
        let (pre, post, whole, fresh, around, at) = lookup_one idx c s x gs seg h e in
        let itself = only_itself (c ∷ s) x idx.ids there e in
        Agrees-found idx (c ∷ s)
          (some (suc (length (joined pre)), suc (length (joined pre)) + length x)) (x ∷ []) at e
          (
            pre ++ [] ∷ post,
            (
              bytes_deleted idx.bytes x pre post around,
              delete_one idx c s gs pre post seg
                  (whole ∙ ap (λ (y : Bytes). pre ++ y ∷ post) itself) fresh,
              All-replace pre post x (subst (All (Lacks b' ')) whole seg.2),
            ),
            refl,
          )

pub add_lem :
    (idx : TruncIndex) (c : ℕ) (s : Bytes) (gs : List Bytes)
    → Segments idx gs
    → Agrees (add (c ∷ s) idx) (add_spec (c ∷ s) idx.ids)
unfolding add
add_lem idx c s gs (bytes, ids, lacks) = elim (Bool-cases (contains_byte b' ' (c ∷ s))) [
  | inl space ↦ rw space (gs, (bytes, ids, lacks), refl)
  | inr proper ↦ elim (Bool-cases (has_text (c ∷ s) idx.ids)) [
    | inl there ↦ rw (proper, there) (gs, (bytes, ids, lacks), refl)
    | inr fresh ↦
        rw (proper, fresh)
          (
            gs ++ (c ∷ s) ∷ [],
            (
              ap (λ (t : Bytes). t ++ ((c ∷ s) ++ b' ' ∷ [])) bytes
                  ∙ ap (λ (t : Bytes). b' ' ∷ t) (sym (joined-append gs ((c ∷ s) ∷ []))),
              ap (λ l. l ++ (c ∷ s) ∷ []) ids ∙ sym (kept-append gs ((c ∷ s) ∷ [])),
              All-append (Lacks b' ') gs ((c ∷ s) ∷ []) (contains_byte_none b' ' (c ∷ s) proper, tt)
                  lacks,
            ),
            refl,
          )
  ]
]
