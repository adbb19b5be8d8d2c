-- ===== src/Graph/Copies.antt =====
-- The images that a walk puts into a table are those of the directory.
use docker_stuff.Base.{
  if◌then◌else◌, ◌≡◌, ◌≢◌, sym, ap, ◌∙◌, Bool, List, [], ◌∷◌, Option, none, some, Bytes, Bool-cases,
  Option-cases, inl, inr, some_inj,
}
use mathlib.Core.Path.{subst}
use docker_stuff.Text.Split.{eq_bytes, eq_bytes_iff}
use docker_stuff.Names.TruncIndex.{TruncIndex, IndexResult, ok, err, panicked}
use docker_stuff.Names.TruncIndex
use docker_stuff.TagStore.Tables.{find, put}
use docker_stuff.TagStore.Lookups.{find-put, is_some}
use docker_stuff.Graph.{
  Image, Files, Graph, GraphResult, done, failed, crashed, Table, get, handled, walk,
}
use docker_stuff.Graph.Walk.{Reads, image_if, image_by, image_at, Found, get-Found, Adds}

-- Every image of a table is the one of the directory with its key.
abbrev pub IsCopy : (Bytes → Option Image) → Table Image → Type 0
IsCopy images t = (k : Bytes) (i : Image) → find k t ≡ some i → images k ≡ some i

pub nil-IsCopy : (images : Bytes → Option Image) → IsCopy images []
unfolding find
nil-IsCopy images k i e = cc

pub put-IsCopy :
    (images : Bytes → Option Image) (image : Image) (t : Table Image)
    → images image.id ≡ some image
    → IsCopy images t
    → IsCopy images (put image.id image t)
put-IsCopy images image t e copy k i there = elim (Bool-cases (eq_bytes image.id k)) [
  | inl same ↦
      ap images (sym ((eq_bytes_iff image.id k).0 same))
      ∙ e
      ∙ sym (ap (λ (b : Bool). if b then some image else find k t) same)
      ∙ sym (find-put k image.id image t)
      ∙ there
  | inr other ↦ copy k i (
      sym (ap (λ (b : Bool). if b then some image else find k t) other)
      ∙ sym (find-put k image.id image t)
      ∙ there)
]

-- With its keys, a table of such images is known.
pub copied :
    (images : Bytes → Option Image) (t : Table Image) (k : Bytes) (here : Bool)
    → IsCopy images t
    → is_some (find k t) ≡ here
    → find k t ≡ (if here then images k else none)
copied images t k here copy e = elim (Option-cases (find k t)) [
  | inl missing ↦
      missing ∙ ap (λ (b : Bool). if b then images k else none) (sym (ap is_some missing) ∙ e)
  | inr (i, there) ↦
      there
      ∙ sym (copy k i there)
      ∙ ap (λ (b : Bool). if b then images k else none) (sym (ap is_some there) ∙ e)
]

abbrev pub HoldsResult :
    {W A : Type 0} → (Table A → Type 0) → GraphResult (Table A) × Graph W → Type 0
HoldsResult P (done t, g) = P t
HoldsResult P (failed, g) = Unit {0}
HoldsResult P (crashed, g) = Unit {0}

module _ {W : Type 0} (o : Files W) (images : Bytes → Option Image) (names : List Bytes)
    (steady : (name : Bytes) (w : W)
      → Reads o images names w
      → Reads o images names (o.load name w).1) where
  image_if-id :
      (id : Bytes) (found : Option Image) (i : Image)
      → image_if id found ≡ some i
      → (found ≡ some i) × (i.id ≡ id)
  image_if-id id none i e = cc
  image_if-id id (some j) i e = elim (Bool-cases (eq_bytes j.id id)) [
    | inl same ↦
        let is_it : j ≡ i =
          some_inj (sym (ap (λ (b : Bool). if b then some j else none) same) ∙ e) in
        (ap some is_it, ap (λ (x : Image). x.id) (sym is_it) ∙ (eq_bytes_iff j.id id).0 same)
    | inr other ↦
        let nothing : none ≡ some i =
          sym (ap (λ (b : Bool). if b then some j else none) other) ∙ e in
        cc
  ]

  image_by-id :
      (r : IndexResult Bytes) (i : Image)
      → image_by o images names r ≡ some i
      → images i.id ≡ some i
  image_by-id (ok id) i e =
      let (there, same) = image_if-id id (images id) i e in ap images same ∙ there
  image_by-id (err x) i e = cc
  image_by-id panicked i e = cc

  image_at-id :
      (index : TruncIndex) (name : Bytes) (i : Image)
      → image_at o images names index name ≡ some i
      → images i.id ≡ some i
  unfolding image_at
  image_at-id index name i e = image_by-id (TruncIndex.get name index) i e

  module _ {A : Type 0} (index : TruncIndex)
      (calm : (name : Bytes) → TruncIndex.get name index ≢ panicked) (more : Image → Bytes → Bool)
      (handler : Image → Table A → Graph W → GraphResult (Table A) × Graph W)
      (step : (image : Image) (s : Table A) (g : Graph W)
        → Reads o images names g.world
        → g.index ≡ index
        → Adds o images names steady index (more image) s (handler image s g))
      (P : Table A → Type 0)
      (keeps : (image : Image) (s : Table A) (g : Graph W)
        → images image.id ≡ some image
        → P s
        → HoldsResult {W = W} P (handler image s g)) where
    -- What the handler keeps of the table for the images of the directory, the walk keeps.
    pub walk-Holds :
        (dir : List Bytes) (s : Table A) (g : Graph W)
        → Reads o images names g.world
        → g.index ≡ index
        → P s
        → HoldsResult {W = W} P (walk o handler dir s g)
    unfolding walk
    walk-Holds [] s g reads same p = p
    walk-Holds (name ∷ dir) s g reads same p =
        go (get o name g)
          (subst
            (λ i. Found o images names steady i (image_at o images names i name) (get o name g))
            same
            (get-Found o images names steady name g
              (subst (λ i. TruncIndex.get name i ≢ panicked) (sym same) (calm name)) reads))
          (λ u next reads same p. walk-Holds dir u next reads same p)
      where
        Rest : Type 0
        Rest =
            (u : Table A) (next : Graph W)
            → Reads o images names next.world
            → next.index ≡ index
            → P u
            → HoldsResult {W = W} P (walk o handler dir u next)

        after_handler :
            (i : Image) (r : GraphResult (Table A) × Graph W)
            → Adds o images names steady index (more i) s r
            → HoldsResult {W = W} P r
            → Rest
            → HoldsResult {W = W} P (elim r.0 [
              | done u ↦ walk o handler dir u r.1
              | failed ↦ (failed, r.1)
              | crashed ↦ (crashed, r.1)
            ])
        after_handler i (done u, next) (same, reads, keys) q rest = rest u next reads same q
        after_handler i (failed, next) h q rest = tt
        after_handler i (crashed, next) h q rest = tt

        go :
            (t : GraphResult Image × Graph W)
            → Found o images names steady index (image_at o images names index name) t
            → Rest
            → HoldsResult {W = W} P (elim (handled o handler s t).0 [
              | done u ↦ walk o handler dir u (handled o handler s t).1
              | failed ↦ (failed, (handled o handler s t).1)
              | crashed ↦ (crashed, (handled o handler s t).1)
            ])
        go (done i, next) (e, same, reads) rest =
            after_handler i (handler i s next) (step i s next reads same)
              (keeps i s next (image_at-id index name i e) p) rest
        go (failed, next) (e, same, reads) rest = rest s next reads same p
        go (crashed, next) h rest = tt
