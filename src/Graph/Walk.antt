-- ===== src/Graph/Walk.antt =====
-- What a walk over the images of a graph collects.
use docker_stuff.Base.{
  if◌then◌else◌, ◌≡◌, ◌≢◌, refl, sym, ap, ◌∙◌, Bool, true, false, ◌||◌, List, [], ◌∷◌, Option, none,
  some, Bytes, arith,
}
use mathlib.Core.Path.{subst}
use docker_stuff.Text.Split.{eq_bytes}
use docker_stuff.Names.TruncIndex.{TruncIndex, IndexResult, ok, err, panicked}
use docker_stuff.Names.TruncIndex
use docker_stuff.TagStore.Tables.{find}
use docker_stuff.TagStore.Lookups.{is_some}
use docker_stuff.Graph.{
  Image, Files, Graph, GraphResult, done, failed, crashed, Table, has_id, loaded, get, handled,
  walk,
}

abbrev pub image_if : Bytes → Option Image → Option Image
image_if id none = none
image_if id (some image) = if eq_bytes image.id id then some image else none

abbrev pub id_of : Option Image → List Bytes → List Bytes
id_of none ids = ids
id_of (some image) ids = image.id ∷ ids

-- A file tree as it is read: the images at the names of directories, which reading leaves alone.
module _ {W : Type 0} (o : Files W) (images : Bytes → Option Image) (names : List Bytes) where
  abbrev pub Reads : W → Type 0
  Reads w = ((name : Bytes) → (o.load name w).0 ≡ images name) × (o.read_dir w ≡ some names)

  -- What `Get` finds.
  abbrev pub image_by : IndexResult Bytes → Option Image
  image_by (ok id) = image_if id (images id)
  image_by (err e) = none
  image_by panicked = none

  unfoldable pub image_at : TruncIndex → Bytes → Option Image
  unfolding TruncIndex.get
  image_at index name = image_by (TruncIndex.get name index)

  abbrev pub parent_of : TruncIndex → Option Image → Option Image
  parent_of index none = none
  parent_of index (some image) = image_at index image.parent

  unfoldable pub image_ids : TruncIndex → List Bytes → List Bytes
  unfolding image_at
  image_ids index [] = []
  image_ids index (name ∷ names) = id_of (image_at index name) (image_ids index names)

  unfoldable pub parent_ids : TruncIndex → List Bytes → List Bytes
  unfolding image_at
  parent_ids index [] = []
  parent_ids index (name ∷ names) =
      id_of (parent_of index (image_at index name)) (parent_ids index names)

  module _ (steady : (name : Bytes) (w : W) → Reads w → Reads (o.load name w).1) where
    -- A result of `Get`, against what is there.
    abbrev pub Found : TruncIndex → Option Image → GraphResult Image × Graph W → Type 0
    Found index image (done i, g) = (image ≡ some i) × (g.index ≡ index) × Reads g.world
    Found index image (failed, g) = (image ≡ none) × (g.index ≡ index) × Reads g.world
    Found index image (crashed, g) = ⊥

    has_id-Found :
        (id : Bytes) (image : Option Image) (w : W) (index : TruncIndex)
        → Reads w
        → Found index (image_if id image) (has_id o id (image, w) index)
    has_id-Found id none w index reads = (refl, refl, reads)
    has_id-Found id (some image) w index reads = same (eq_bytes image.id id)
      where
        same :
            (b : Bool)
            → Found index
                (if b then some image else none)
                (if b then done image else failed, record { index = index; world = w })
        same true = (refl, refl, reads)
        same false = (refl, refl, reads)

    loaded-Found :
        (r : IndexResult Bytes) (g : Graph W)
        → r ≢ panicked
        → Reads g.world
        → Found g.index (image_by r) (loaded o r g)
    loaded-Found (err e) g calm reads = (refl, refl, reads)
    loaded-Found panicked g calm reads = elim (calm refl) [ ]
    loaded-Found (ok id) g calm reads =
        subst (λ i. Found g.index (image_if id i) (has_id o id (o.load id g.world) g.index))
          (reads.0 id)
          (has_id-Found id (o.load id g.world).0 (o.load id g.world).1 g.index
            (steady id g.world reads))

    pub get-Found :
        (name : Bytes) (g : Graph W)
        → TruncIndex.get name g.index ≢ panicked
        → Reads g.world
        → Found g.index (image_at g.index name) (get o name g)
    unfolding get image_at
    get-Found name g calm reads = loaded-Found (TruncIndex.get name g.index) g calm reads

    -- A table that holds the keys of another one, and those of a test.
    abbrev pub Adds :
        {A : Type 0}
        → TruncIndex
        → (Bytes → Bool)
        → Table A
        → GraphResult (Table A) × Graph W
        → Type 0
    Adds index more s (done t, g) =
        (g.index ≡ index)
        × Reads g.world
        × ((k : Bytes) → is_some (find k t) ≡ (is_some (find k s) || more k))
    Adds index more s (failed, g) = ⊥
    Adds index more s (crashed, g) = ⊥

    abbrev pub adds_at : (Image → Bytes → Bool) → Option Image → Bytes → Bool
    adds_at more none k = false
    adds_at more (some image) k = more image k

    unfoldable pub adds_of : TruncIndex → (Image → Bytes → Bool) → List Bytes → Bytes → Bool
    unfolding image_at
    adds_of index more [] k = false
    adds_of index more (name ∷ names) k =
        adds_at more (image_at index name) k || adds_of index more names k

    pub or_false : (b : Bool) → b ≡ (b || false)
    or_false b = ground arith

    or_assoc : (a b c d e : Bool) → a ≡ (b || c) → d ≡ (a || e) → d ≡ (b || (c || e))
    or_assoc a b c d e p q = ground arith

    Adds-or :
        {A : Type 0} (index : TruncIndex) (a b : Bytes → Bool) (s u : Table A)
        (t : GraphResult (Table A) × Graph W)
        → ((k : Bytes) → is_some (find k u) ≡ (is_some (find k s) || a k))
        → Adds index b u t
        → Adds index (λ k. a k || b k) s t
    Adds-or index a b s u (done v, g) keys (same, reads, more) = (
      same,
      reads,
      λ k.
          or_assoc (is_some (find k u)) (is_some (find k s)) (a k) (is_some (find k v)) (b k)
            (keys k) (more k),
    )
    Adds-or index a b s u (failed, g) keys h = h
    Adds-or index a b s u (crashed, g) keys h = h

    module _ {A : Type 0} (index : TruncIndex)
        (calm : (name : Bytes) → TruncIndex.get name index ≢ panicked) (more : Image → Bytes → Bool)
        (handler : Image → Table A → Graph W → GraphResult (Table A) × Graph W)
        (step : (image : Image) (s : Table A) (g : Graph W)
          → Reads g.world
          → g.index ≡ index
          → Adds index (more image) s (handler image s g)) where
      handled-Adds :
          (image : Option Image) (s : Table A) (t : GraphResult Image × Graph W)
          → Found index image t
          → Adds index (adds_at more image) s (handled o handler s t)
      handled-Adds image s (done i, g) (e, same, reads) =
          subst (λ (j : Option Image). Adds index (adds_at more j) s (handler i s g)) (sym e)
            (step i s g reads same)
      handled-Adds image s (failed, g) (e, same, reads) = (
        same,
        reads,
        λ k.
            or_false (is_some (find k s))
            ∙ ap (λ (j : Option Image). is_some (find k s) || adds_at more j k) (sym e),
      )
      handled-Adds image s (crashed, g) h = h

      pub walk-Adds :
          (dir : List Bytes) (s : Table A) (g : Graph W)
          → Reads g.world
          → g.index ≡ index
          → Adds index (adds_of index more dir) s (walk o handler dir s g)
      unfolding walk adds_of
      walk-Adds [] s g reads same = (same, reads, λ k. or_false (is_some (find k s)))
      walk-Adds (name ∷ dir) s g reads same =
          go (handled o handler s (get o name g))
            (handled-Adds (image_at index name) s (get o name g) (
              subst (λ i. Found i (image_at i name) (get o name g)) same
                (get-Found name g
                  (subst (λ i. TruncIndex.get name i ≢ panicked) (sym same) (calm name)) reads)))
            (λ u next reads same. walk-Adds dir u next reads same)
        where
          go :
              (t : GraphResult (Table A) × Graph W)
              → Adds index (adds_at more (image_at index name)) s t
              → ((u : Table A) (next : Graph W)
                  → Reads next.world
                  → next.index ≡ index
                  → Adds index (adds_of index more dir) u (walk o handler dir u next))
              → Adds index (adds_of index more (name ∷ dir)) s (elim t.0 [
                | done u ↦ walk o handler dir u t.1
                | failed ↦ (failed, t.1)
                | crashed ↦ (crashed, t.1)
              ])
          go (done u, next) (same, reads, keys) rest =
              Adds-or index (adds_at more (image_at index name)) (adds_of index more dir) s u
                (walk o handler dir u next) keys (rest u next reads same)
          go (failed, next) h rest = h
          go (crashed, next) h rest = h
