-- ===== src/Names/TruncIndex/Offsets.antt =====
-- Where the bytes of an index hold an identifier with a prefix.
use docker_stuff.Base.{
  ℕ, suc, ◌+◌, if◌then◌else◌, ◌≡◌, ◌≢◌, refl, sym, ap, ◌∙◌, true, false, List, [], ◌∷◌, ◌++◌, Bytes,
  length, length-append, append_assoc, All, Bool-cases, inl, inr, arith,
}
use docker_stuff.Text.Split.{Lacks}
use docker_stuff.Text.Trim.{has_prefix}
use docker_stuff.Names.TruncIndex.{offsets}

-- Every segment with a space behind it.
abbrev pub joined : List Bytes → Bytes
joined [] = []
joined (g ∷ gs) = g ++ b' ' ∷ joined gs

-- The bytes of an index: a space, and the segments.
abbrev pub spaced : List Bytes → Bytes
spaced gs = b' ' ∷ joined gs

pub joined-append : (gs hs : List Bytes) → joined (gs ++ hs) ≡ joined gs ++ joined hs
joined-append [] hs = refl
joined-append (g ∷ gs) hs =
    ap (λ t. g ++ b' ' ∷ t) (joined-append gs hs)
    ∙ sym (append_assoc g (b' ' ∷ joined gs) (joined hs))

-- The identifiers with a prefix.
unfoldable pub matching : Bytes → List Bytes → List Bytes
unfolding has_prefix
matching s [] = []
matching s (g ∷ gs) = let rest = matching s gs in if has_prefix s g then g ∷ rest else rest

-- A prefix without a space ends before the first space.
has_prefix_space :
    (s g rest : Bytes) → Lacks b' ' s → has_prefix s (g ++ b' ' ∷ rest) ≡ has_prefix s g
unfolding has_prefix
has_prefix_space [] g rest h = refl
has_prefix_space (c ∷ s) [] rest h = ground arith
has_prefix_space (c ∷ s) (d ∷ g) rest h = ground (arith, has_prefix_space s g rest h.1)

no_offset :
    (i : ℕ) (s : Bytes) (c : ℕ) (rest : Bytes)
    → c ≢ b' '
    → offsets i (b' ' ∷ s) (c ∷ rest) ≡ offsets (suc i) (b' ' ∷ s) rest
unfolding offsets has_prefix
no_offset i s c rest h = ground arith

-- No offset is inside of a segment.
offsets_inside :
    (i : ℕ) (s g rest : Bytes)
    → Lacks b' ' g
    → offsets i (b' ' ∷ s) (g ++ rest) ≡ offsets (i + length g) (b' ' ∷ s) rest
unfolding offsets has_prefix
offsets_inside i s [] rest h = ap (λ j. offsets j (b' ' ∷ s) rest) (omega arith)
offsets_inside i s (c ∷ g) rest h =
    no_offset i s c (g ++ rest) h.0
    ∙ offsets_inside (suc i) s g rest h.1
    ∙ ap (λ j. offsets j (b' ' ∷ s) rest) (omega arith)

-- The offset of each segment with a prefix.
abbrev pub hits : ℕ → Bytes → List Bytes → List ℕ
hits i s [] = []
hits i s (g ∷ gs) =
    let rest = hits (suc i + length g) s gs in if has_prefix s g then i ∷ rest else rest

pub offsets-spaced :
    (i : ℕ) (c : ℕ) (s : Bytes) (gs : List Bytes)
    → Lacks b' ' (c ∷ s)
    → All (Lacks b' ') gs
    → offsets i (b' ' ∷ c ∷ s) (spaced gs) ≡ hits i (c ∷ s) gs
unfolding offsets has_prefix
offsets-spaced i c s [] h all = ground arith
offsets-spaced i c s (g ∷ gs) h all =
    let later =
      offsets_inside (suc i) (c ∷ s) g (spaced gs) all.0
      ∙ offsets-spaced (suc i + length g) c s gs h all.1 in
    rw (later, has_prefix_space (c ∷ s) g (joined gs) h) refl

pub length-hits :
    (i : ℕ) (s : Bytes) (gs : List Bytes) → length (hits i s gs) ≡ length (matching s gs)
unfolding matching
length-hits i s [] = refl
length-hits i s (g ∷ gs) = elim (Bool-cases (has_prefix s g)) [
  | inl e ↦ rw (e, matching) (ap suc (length-hits (suc i + length g) s gs))
  | inr ne ↦ rw (ne, matching) (length-hits (suc i + length g) s gs)
]

no_hits : (i : ℕ) (s : Bytes) (gs : List Bytes) → matching s gs ≡ [] → hits i s gs ≡ []
no_hits i s gs e =
    length_zero (hits i s gs) (length-hits i s gs ∙ ap (λ (l : List Bytes). length l) e)
  where
    impossible : (n : ℕ) (l : List ℕ) → length (n ∷ l) ≡ 0 → ⊥
    impossible n l e = omega (arith, e)

    length_zero : (l : List ℕ) → length l ≡ 0 → l ≡ []
    length_zero [] e = refl
    length_zero (n ∷ l) e = elim (impossible n l e) [ ]

pub matching_cons :
    (s g : Bytes) (gs : List Bytes)
    → has_prefix s g ≡ true
    → matching s (g ∷ gs) ≡ g ∷ matching s gs
unfolding matching
matching_cons s g gs e = rw (e, matching) refl

pub matching_skip :
    (s g : Bytes) (gs : List Bytes) → has_prefix s g ≡ false → matching s (g ∷ gs) ≡ matching s gs
unfolding matching
matching_skip s g gs e = rw (e, matching) refl

cons_inj : {x y : Bytes} {l m : List Bytes} → x ∷ l ≡ y ∷ m → (x ≡ y) × (l ≡ m)
cons_inj e = (cc, cc)

-- The one segment with a prefix, and its offset.
pub one_match :
    (i : ℕ) (s : Bytes) (gs : List Bytes) (x : Bytes)
    → matching s gs ≡ x ∷ []
    → (pre post : List Bytes) × (gs ≡ pre ++ x ∷ post)
      × (matching s pre ≡ [])
      × (hits i s gs ≡ (i + length (joined pre)) ∷ [])
unfolding matching
one_match i s [] x e = elim (nil e) [ ]
  where
    nil : [] ≡ x ∷ [] → ⊥
    nil e = cc
one_match i s (g ∷ gs) x e = elim (Bool-cases (has_prefix s g)) [
  | inl h ↦
      let found = sym (matching_cons s g gs h) ∙ e in
      (
        [],
        gs,
        ap (λ (y : Bytes). y ∷ gs) (cons_inj found).0,
        refl,
        rw h (
            ap (λ l. i ∷ l) (no_hits (suc i + length g) s gs (cons_inj found).1)
            ∙ ap (λ (n : ℕ). n ∷ []) (omega arith)),
      )
  | inr h ↦
      let (pre, post, whole, none_before, hit) =
        one_match (suc i + length g) s gs x (sym (matching_skip s g gs h) ∙ e) in
      (
        g ∷ pre,
        post,
        ap (λ (l : List Bytes). g ∷ l) whole,
        matching_skip s g pre h ∙ none_before,
        rw h (hit ∙ ap (λ (n : ℕ). n ∷ []) (omega (arith, length-append g (b' ' ∷ joined pre)))),
      )
]
