-- ===== src/Names/TruncIndex/Calm.antt =====
-- No look-up in an index that was added to panics.
use docker_stuff.Base.{
  ℕ, zero, suc, ◌+◌, ◌==◌, ◌≡◌, ◌≢◌, refl, sym, ap, ◌∙◌, Bool, true, false, List, [], ◌∷◌, ◌++◌,
  ◌&&◌, Option, none, Bytes, drop, append_assoc, Bool-cases, Option-cases, inl, inr, arith,
}
use docker_stuff.Text.Trim.{has_prefix}
use docker_stuff.Names.TruncIndex.{
  TruncIndex, ok, panicked, offsets, index_of, end_of, one_offset, lookup, slice, get, get_found,
}
use docker_stuff.Names.TruncIndex.Offsets.{joined, spaced}
use docker_stuff.Names.TruncIndex.Segments.{Segments, slice_at}

-- A text with a space at its end.
abbrev Ended : Bytes → Type 0
Ended t = (u : Bytes) × (t ≡ u ++ b' ' ∷ [])

joined-Ended : (g : Bytes) (gs : List Bytes) → Ended (joined (g ∷ gs))
joined-Ended g [] = (g, refl)
joined-Ended g (h ∷ gs) =
    let (u, e) = joined-Ended h gs in
    (
      g ++ b' ' ∷ u,
      ap (λ (t : Bytes). g ++ b' ' ∷ t) e ∙ sym (append_assoc g (b' ' ∷ u) (b' ' ∷ [])),
    )

drop_nil : (n : ℕ) → drop {A = ℕ} n [] ≡ []
drop_nil zero = refl
drop_nil (suc n) = refl

index_of_ended : (u : Bytes) → index_of b' ' (u ++ b' ' ∷ []) ≢ none
unfolding index_of
index_of_ended [] e = cc
index_of_ended (d ∷ u) e = elim (Option-cases (index_of b' ' (u ++ b' ' ∷ []))) [
  | inl missing ↦ index_of_ended u missing
  | inr (n, there) ↦ ground arith
]

index_of-ne-none :
    (k c : ℕ) (rest u : Bytes)
    → drop k (u ++ b' ' ∷ []) ≡ c ∷ rest
    → index_of b' ' (drop k (u ++ b' ' ∷ [])) ≢ none
unfolding index_of
index_of-ne-none zero c rest u e f = index_of_ended u f
index_of-ne-none (suc k) c rest [] e f = elim (absurd (sym (drop_nil k) ∙ e)) [ ]
  where
    absurd : [] ≡ c ∷ rest → ⊥
    absurd e = cc
index_of-ne-none (suc k) c rest (d ∷ u) e f = index_of-ne-none k c rest u e f

-- The first offset is one where the text occurs.
offsets-head :
    (i o : ℕ) (l : List ℕ) (p t : Bytes)
    → offsets i p t ≡ o ∷ l
    → (k : ℕ) × (o ≡ i + k) × (has_prefix p (drop k t) ≡ true)
unfolding offsets
offsets-head i o l p [] e = elim (absurd e) [ ]
  where
    absurd : [] ≡ o ∷ l → ⊥
    absurd e = cc
offsets-head i o l p (c ∷ t) e = elim (Bool-cases (has_prefix p (c ∷ t))) [
  | inl here ↦ (0, first (rw (here, offsets) at e) ∙ omega arith, here)
  | inr further ↦
      let (k, at, found) = offsets-head (suc i) o l p t (rw (further, offsets) at e) in
      (suc k, at ∙ omega arith, found)
]
  where
    first : {m : List ℕ} → i ∷ m ≡ o ∷ l → o ≡ i
    first e = cc

-- A space is found at the end too.
offsets-ne-nil : (i : ℕ) (u : Bytes) → offsets i (b' ' ∷ []) (u ++ b' ' ∷ []) ≢ []
unfolding offsets has_prefix
offsets-ne-nil i [] e = cc
offsets-ne-nil i (c ∷ u) e = ground (arith, offsets-ne-nil (suc i) u)

-- Behind an occurrence of two bytes there is one.
two_bytes :
    (k a b : ℕ) (s t : Bytes)
    → has_prefix (a ∷ b ∷ s) (drop k t) ≡ true
    → (d : ℕ) × (rest : Bytes) × (drop (suc k) t ≡ d ∷ rest)
unfolding has_prefix
two_bytes zero a b s [] h = elim (no_prefix h) [ ]
  where
    no_prefix : false ≡ true → ⊥
    no_prefix h = cc
two_bytes zero a b s (c ∷ []) h = elim (no_prefix (a == c) h) [ ]
  where
    no_prefix : (x : Bool) → (x && false) ≡ true → ⊥
    no_prefix x h = ground arith
two_bytes zero a b s (c ∷ d ∷ t) h = (d, t, refl)
two_bytes (suc k) a b s [] h = elim (no_prefix h) [ ]
  where
    no_prefix : false ≡ true → ⊥
    no_prefix h = cc
two_bytes (suc k) a b s (c ∷ t) h = two_bytes k a b s t h

-- At the one offset of a text there is another space behind.
space_behind :
    (s u : Bytes) (o : ℕ)
    → offsets 0 (b' ' ∷ s) (b' ' ∷ (u ++ b' ' ∷ [])) ≡ o ∷ []
    → index_of b' ' (drop o (u ++ b' ' ∷ [])) ≢ none
unfolding offsets has_prefix
space_behind [] u o at e = offsets-ne-nil 1 u (only at)
  where
    only : {m : List ℕ} → 0 ∷ m ≡ o ∷ [] → m ≡ []
    only e = cc
space_behind (c ∷ s) u o at e =
    let t : Bytes = b' ' ∷ (u ++ b' ' ∷ []) in
    let (k, same, found) = offsets-head 0 o [] (b' ' ∷ c ∷ s) t at in
    let (d, rest, behind) = two_bytes k b' ' c s t found in
    let place : k ≡ o = omega (arith, same) in
    index_of-ne-none o d rest u (ap (λ (n : ℕ). drop n (u ++ b' ' ∷ [])) (sym place) ∙ behind) e

get_found-ne-panicked :
    (idx : TruncIndex) (s : Bytes) (g : Bytes) (gs : List Bytes) (l : List ℕ)
    → idx.bytes ≡ spaced (g ∷ gs)
    → offsets 0 (b' ' ∷ s) idx.bytes ≡ l
    → get_found idx.bytes (one_offset idx.bytes l) ≢ panicked
unfolding one_offset
get_found-ne-panicked idx s g gs [] bytes at e = cc
get_found-ne-panicked idx s g gs (o ∷ o' ∷ l) bytes at e = cc
get_found-ne-panicked idx s g gs (o ∷ []) bytes at e =
    let (u, ended) = joined-Ended g gs in
    let whole : idx.bytes ≡ b' ' ∷ (u ++ b' ' ∷ []) = bytes ∙ ap (λ (t : Bytes). b' ' ∷ t) ended in
    elim (Option-cases (index_of b' ' (drop (suc o) idx.bytes))) [
      | inl missing ↦
          space_behind s u o (ap (offsets 0 (b' ' ∷ s)) (sym whole) ∙ at)
            (ap (λ (t : Bytes). index_of b' ' (drop (suc o) t)) (sym whole) ∙ missing)
      | inr (n, there) ↦ not_ok (
          sym (slice_at (suc o) n idx.bytes)
          ∙ ap (λ (i : Option ℕ). slice (suc o) (end_of o i) idx.bytes) (sym there)
          ∙ e)
    ]
  where
    not_ok : {t : Bytes} → ok t ≡ panicked → ⊥
    not_ok e = cc

pub get-ne-panicked :
    (idx : TruncIndex) (s : Bytes) (g : Bytes) (gs : List Bytes)
    → Segments idx (g ∷ gs)
    → get s idx ≢ panicked
unfolding get lookup
get-ne-panicked idx s g gs (bytes, ids, lacks) = get_found-ne-panicked idx s g gs _ bytes refl
