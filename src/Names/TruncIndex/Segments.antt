-- ===== src/Names/TruncIndex/Segments.antt =====
-- The bytes of an index as segments, and the one that a prefix selects.
use docker_stuff.Base.{
  ℕ, zero, suc, ◌+◌, leb, ◌≡◌, ◌≢◌, refl, sym, ap, ◌∙◌, true, List, [], ◌∷◌, ◌++◌, Option, none,
  some, Bytes, length, take, drop, take-append, drop-append, All, arith,
}
use mathlib.Core.Path.{subst}
use docker_stuff.Text.Split.{Lacks}
use docker_stuff.Text.Trim.{has_prefix}
use docker_stuff.Names.TruncIndex.{
  TruncIndex, ok, offsets, index_of, end_of, one_offset, lookup, slice,
}
use docker_stuff.Names.TruncIndex.Offsets.{
  joined, spaced, joined-append, matching, offsets-spaced, one_match, length-hits,
}

-- The segments that are not empty.
abbrev pub kept : List Bytes → List Bytes
kept [] = []
kept ([] ∷ gs) = kept gs
kept ((c ∷ g) ∷ gs) = (c ∷ g) ∷ kept gs

-- The segments of an index: its identifiers in order, and empty ones where some were deleted.
abbrev pub Segments : TruncIndex → List Bytes → Type 0
Segments idx gs = (idx.bytes ≡ spaced gs) × (idx.ids ≡ kept gs) × All (Lacks b' ') gs

pub kept-append : (gs hs : List Bytes) → kept (gs ++ hs) ≡ kept gs ++ kept hs
kept-append [] hs = refl
kept-append ([] ∷ gs) hs = kept-append gs hs
kept-append ((c ∷ g) ∷ gs) hs = ap (λ l. (c ∷ g) ∷ l) (kept-append gs hs)

pub matching-kept :
    (c : ℕ) (s : Bytes) (gs : List Bytes) → matching (c ∷ s) (kept gs) ≡ matching (c ∷ s) gs
unfolding matching has_prefix
matching-kept c s [] = refl
matching-kept c s ([] ∷ gs) = matching-kept c s gs
matching-kept c s ((d ∷ g) ∷ gs) = ground (arith, matching-kept c s gs)

index_of-append :
    (g rest : Bytes) → Lacks b' ' g → index_of b' ' (g ++ b' ' ∷ rest) ≡ some (length g)
unfolding index_of
index_of-append [] rest h = refl
index_of-append (c ∷ g) rest h = ground (arith, index_of-append g rest h.1)

-- The bytes around a segment.
spaced_at :
    (pre post : List Bytes) (x : Bytes)
    → spaced (pre ++ x ∷ post) ≡ (b' ' ∷ joined pre) ++ (x ++ b' ' ∷ joined post)
spaced_at pre post x = ap (λ (t : Bytes). b' ' ∷ t) (joined-append pre (x ∷ post))

All-middle : (pre post : List Bytes) (x : Bytes) → All (Lacks b' ') (pre ++ x ∷ post) → Lacks b' ' x
All-middle [] post x h = h.0
All-middle (g ∷ pre) post x h = All-middle pre post x h.1

lookup_found :
    (idx : TruncIndex) (s x : Bytes) (pre post : List Bytes)
    → idx.bytes ≡ (b' ' ∷ joined pre) ++ (x ++ b' ' ∷ joined post)
    → Lacks b' ' x
    → offsets 0 (b' ' ∷ s) idx.bytes ≡ length (joined pre) ∷ []
    → lookup s idx ≡ some (suc (length (joined pre)), suc (length (joined pre)) + length x)
unfolding lookup one_offset
lookup_found idx s x pre post around lacks hit =
    let n = length (joined pre) in
    let behind : drop (suc n) idx.bytes ≡ x ++ b' ' ∷ joined post =
      ap (λ (t : Bytes). drop (suc n) t) around
      ∙ drop-append (b' ' ∷ joined pre) (x ++ b' ' ∷ joined post) in
    ap (one_offset idx.bytes) hit
    ∙ ap (λ (t : Bytes). some (suc n, end_of n (index_of b' ' t))) behind
    ∙ ap (λ (k : Option ℕ). some (suc n, end_of n k)) (index_of-append x (joined post) lacks)

pub slice_at : (n m : ℕ) (bytes : Bytes) → slice n (n + m) bytes ≡ ok (take m (drop n bytes))
slice_at n m bytes =
    let within : leb n (n + m) ≡ true = ground arith in
    rw (within) (ap (λ k. ok (take k (drop n bytes))) (omega arith))

drop_nil : (n : ℕ) → drop {A = ℕ} n [] ≡ []
drop_nil zero = refl
drop_nil (suc n) = refl

drop_add : (n m : ℕ) (bytes : Bytes) → drop (n + m) bytes ≡ drop m (drop n bytes)
drop_add zero m bytes = ap (λ k. drop k bytes) (omega arith)
drop_add (suc n) m [] = drop_nil (suc n + m) ∙ sym (drop_nil m)
drop_add (suc n) m (c ∷ bytes) =
    let next : suc n + m ≡ suc (n + m) = omega arith in
    ap (λ k. drop k (c ∷ bytes)) next ∙ drop_add n m bytes

pub slice_found :
    (bytes x : Bytes) (pre post : List Bytes)
    → bytes ≡ (b' ' ∷ joined pre) ++ (x ++ b' ' ∷ joined post)
    → slice (suc (length (joined pre))) (suc (length (joined pre)) + length x) bytes ≡ ok x
slice_found bytes x pre post around =
    let front : Bytes = b' ' ∷ joined pre in
    let back : Bytes = b' ' ∷ joined post in
    slice_at (length front) (length x) bytes
    ∙ ap (λ (t : Bytes). ok (take (length x) (drop (length front) t))) around
    ∙ ap (λ (t : Bytes). ok (take (length x) t)) (drop-append front (x ++ back))
    ∙ ap ok (take-append x back)

-- What `delete` leaves is the segments with an empty one in place of the identifier.
pub bytes_deleted :
    (bytes x : Bytes) (pre post : List Bytes)
    → bytes ≡ (b' ' ∷ joined pre) ++ (x ++ b' ' ∷ joined post)
    → take (suc (length (joined pre))) bytes ++ drop (suc (length (joined pre)) + length x) bytes
      ≡ spaced (pre ++ [] ∷ post)
bytes_deleted bytes x pre post around =
    let front : Bytes = b' ' ∷ joined pre in
    let back : Bytes = b' ' ∷ joined post in
    ap (λ (t : Bytes). take (length front) t ++ drop (length front + length x) t) around
    ∙ ap (λ (t : Bytes). t ++ drop (length front + length x) (front ++ (x ++ back)))
        (take-append front (x ++ back))
    ∙ ap (λ (t : Bytes). front ++ t)
        (drop_add (length front) (length x) (front ++ (x ++ back))
          ∙ ap (λ (t : Bytes). drop (length x) t) (drop-append front (x ++ back))
          ∙ drop-append x back)
    ∙ sym (spaced_at pre post [])

one_offset-none : (bytes : Bytes) (l : List ℕ) → length l ≢ 1 → one_offset bytes l ≡ none
unfolding one_offset
one_offset-none bytes [] h = refl
one_offset-none bytes (i ∷ []) h = elim (h refl) [ ]
one_offset-none bytes (i ∷ j ∷ l) h = refl

pub lookup-none :
    (idx : TruncIndex) (c : ℕ) (s : Bytes) (gs : List Bytes)
    → Segments idx gs
    → Lacks b' ' (c ∷ s)
    → length (matching (c ∷ s) idx.ids) ≢ 1
    → lookup (c ∷ s) idx ≡ none
unfolding lookup one_offset
lookup-none idx c s gs (bytes, ids, lacks) h several = one_offset-none idx.bytes _ (λ e. several (
    ap (λ (l : List Bytes). length l) (ap (matching (c ∷ s)) ids ∙ matching-kept c s gs)
    ∙ sym (length-hits 0 (c ∷ s) gs)
    ∙ ap (λ (l : List ℕ). length l)
        (sym (ap (offsets 0 (b' ' ∷ c ∷ s)) bytes ∙ offsets-spaced 0 c s gs h lacks))
    ∙ e))

pub lookup_one :
    (idx : TruncIndex) (c : ℕ) (s x : Bytes) (gs : List Bytes)
    → Segments idx gs
    → Lacks b' ' (c ∷ s)
    → matching (c ∷ s) idx.ids ≡ x ∷ []
    → (pre post : List Bytes) × (gs ≡ pre ++ x ∷ post)
      × (matching (c ∷ s) pre ≡ [])
      × (idx.bytes ≡ (b' ' ∷ joined pre) ++ (x ++ b' ' ∷ joined post))
      × (lookup (c ∷ s) idx
          ≡ some (suc (length (joined pre)), suc (length (joined pre)) + length x))
lookup_one idx c s x gs (bytes, ids, lacks) h e =
    let alone = sym (matching-kept c s gs) ∙ ap (matching (c ∷ s)) (sym ids) ∙ e in
    let (pre, post, whole, fresh, hit) = one_match 0 (c ∷ s) gs x alone in
    let around = bytes ∙ ap spaced whole ∙ spaced_at pre post x in
    (
      pre,
      post,
      whole,
      fresh,
      around,
      lookup_found idx (c ∷ s) x pre post around
          (All-middle pre post x (subst (All (Lacks b' ')) whole lacks))
          (ap (offsets 0 (b' ' ∷ c ∷ s)) bytes
            ∙ offsets-spaced 0 c s gs h lacks
            ∙ hit
            ∙ ap (λ (k : ℕ). k ∷ []) (omega arith)),
    )
