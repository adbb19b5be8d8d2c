-- ===== src/Graph/Heads.antt =====
-- The heads of a graph are its images that are nobody's parent.
use docker_stuff.Base.{
  if◌then◌else◌, ◌≡◌, ◌≢◌, refl, sym, ap, ◌∙◌, Bool, true, false, not, ◌&&◌, ◌||◌, List, [], ◌∷◌,
  Option, none, some, Bytes, Bool-cases, inl, inr, Option-cases, arith,
}
use mathlib.Core.Path.{subst}
use docker_stuff.Text.Split.{eq_bytes, eq_bytes_iff, has_text}
use docker_stuff.Names.TruncIndex.{TruncIndex, panicked}
use docker_stuff.Names.TruncIndex
use docker_stuff.Names.TruncIndex.Segments.{Segments}
use docker_stuff.Names.TruncIndex.Calm.{get-ne-panicked}
use docker_stuff.TagStore.Tables.{find, put}
use docker_stuff.TagStore.Lookups.{find-put, is_some}
use docker_stuff.Graph.{
  Image, Files, Graph, GraphResult, done, failed, crashed, Table, get, walk_names, walk_all,
  push_child, note_parent, note_child, by_parent, note_head, heads_of, heads,
}
use docker_stuff.Graph.Copies.{IsCopy, nil-IsCopy, put-IsCopy, copied, HoldsResult, walk-Holds}
use docker_stuff.Graph.Walk.{
  Reads, image_at, id_of, parent_of, image_ids, parent_ids, Found, get-Found, Adds, adds_at,
  adds_of, or_false, walk-Adds,
}

module _ {W : Type 0} (o : Files W) (images : Bytes → Option Image) (names : List Bytes)
    (steady : (name : Bytes) (w : W)
      → Reads o images names w
      → Reads o images names (o.load name w).1) where
  some_key :
      {A : Type 0} (j k : Bytes) (a : A) (m : Table A)
      → is_some (find k (put j a m)) ≡ (is_some (find k m) || eq_bytes j k)
  some_key {A = A} j k a m = ap is_some (find-put k j a m) ∙ go (eq_bytes j k) (find k m)
    where
      go : (b : Bool) (x : Option A) → is_some (if b then some a else x) ≡ (is_some x || b)
      go true none = refl
      go true (some y) = refl
      go false none = refl
      go false (some y) = refl

  -- The parent of an image, as a test.
  abbrev child_of : TruncIndex → Image → Bytes → Bool
  child_of index image k = has_text k (id_of (image_at o images names index image.parent) [])

  push_child-key :
      (image : Image) (parent k : Bytes) (children : Table (List Image))
      → is_some (find k (push_child o image parent children))
        ≡ (is_some (find k children) || eq_bytes parent k)
  push_child-key image parent k children = elim (Option-cases (find parent children)) [
    | inl fresh ↦ rw (fresh, push_child) (some_key parent k (image ∷ []) children)
    | inr (l, there) ↦ rw (there, push_child) (some_key parent k _ children)
  ]

  note_parent-Adds :
      (index : TruncIndex) (image : Image) (children : Table (List Image)) (found : Option Image)
      (t : GraphResult Image × Graph W)
      → Found o images names steady index found t
      → Adds o images names steady index
          (λ k. has_text k (id_of found []))
          children
          (note_parent o image children t)
  unfolding has_text
  note_parent-Adds index image children found (done parent, g) (e, same, reads) = (
    same,
    reads,
    λ k.
        push_child-key image parent.id k children
        ∙ ap (λ b. is_some (find k children) || b)
            (or_false o images names steady (eq_bytes parent.id k)
              ∙ ap (λ (i : Option Image). has_text k (id_of i [])) (sym e)),
  )
  note_parent-Adds index image children found (failed, g) (e, same, reads) = (
    same,
    reads,
    λ k.
        or_false o images names steady (is_some (find k children))
        ∙ ap (λ (i : Option Image). is_some (find k children) || has_text k (id_of i [])) (sym e),
  )
  note_parent-Adds index image children found (crashed, g) h = h

  note_child-Adds :
      (index : TruncIndex) (calm : (name : Bytes) → TruncIndex.get name index ≢ panicked)
      (image : Image) (children : Table (List Image)) (g : Graph W)
      → Reads o images names g.world
      → g.index ≡ index
      → Adds o images names steady index
          (child_of index image)
          children
          (note_child o image children g)
  note_child-Adds index calm image children g reads same =
      note_parent-Adds index image children (image_at o images names index image.parent)
        (get o image.parent g)
        (subst
          (λ i.
            Found o images names steady i (image_at o images names i image.parent)
              (get o image.parent g))
          same
          (get-Found o images names steady image.parent g
            (subst (λ i. TruncIndex.get image.parent i ≢ panicked) (sym same) (calm image.parent))
            reads))

  -- An image that is no parent, as a test.
  abbrev head_of : Table (List Image) → Image → Bytes → Bool
  head_of children image k = not (is_some (find image.id children)) && eq_bytes image.id k

  note_head-Adds :
      (index : TruncIndex) (children : Table (List Image)) (image : Image) (s : Table Image)
      (g : Graph W)
      → Reads o images names g.world
      → g.index ≡ index
      → Adds o images names steady index (head_of children image) s (note_head o children image s g)
  note_head-Adds index children image s g reads same = go (find image.id children)
    where
      go :
          (found : Option (List Image))
          → Adds o images names steady index
              (λ k. not (is_some found) && eq_bytes image.id k)
              s
              (elim found [ some l ↦ (done s, g) | none ↦ (done (put image.id image s), g) ])
      go (some l) = (same, reads, λ k. or_false o images names steady (is_some (find k s)))
      go none = (same, reads, λ k. some_key image.id k image s)

  same_or : (a b c : Bool) → b ≡ c → ((a || false) || b) ≡ (a || c)
  same_or a b c e = ground arith

  -- The tests over the names are the lists of identifiers.
  adds_of-child :
      (index : TruncIndex) (dir : List Bytes) (k : Bytes)
      → adds_of o images names steady index (child_of index) dir k
        ≡ has_text k (parent_ids o images names index dir)
  unfolding adds_of parent_ids has_text
  adds_of-child index [] k = refl
  adds_of-child index (name ∷ dir) k =
      go (image_at o images names index name) (adds_of-child index dir k)
    where
      one :
          (i : Option Image)
          → adds_of o images names steady index (child_of index) dir k
            ≡ has_text k (parent_ids o images names index dir)
          → (has_text k (id_of i []) || adds_of o images names steady index (child_of index) dir k)
            ≡ has_text k (id_of i (parent_ids o images names index dir))
      one none rest = rest
      one (some i) rest = same_or (eq_bytes i.id k) _ _ rest

      go :
          (i : Option Image)
          → adds_of o images names steady index (child_of index) dir k
            ≡ has_text k (parent_ids o images names index dir)
          → (adds_at o images names steady (child_of index) i k
              || adds_of o images names steady index (child_of index) dir k)
            ≡ has_text k
                (id_of (parent_of o images names index i) (parent_ids o images names index dir))
      go none rest = rest
      go (some i) rest = one (image_at o images names index i.parent) rest

  adds_of-head :
      (index : TruncIndex) (children : Table (List Image)) (dir : List Bytes) (k : Bytes)
      → adds_of o images names steady index (head_of children) dir k
        ≡ (not (is_some (find k children)) && has_text k (image_ids o images names index dir))
  unfolding adds_of image_ids has_text
  adds_of-head index children [] k = ground arith
  adds_of-head index children (name ∷ dir) k =
      go (image_at o images names index name) (adds_of-head index children dir k)
    where
      same_and : (n a h : Bool) → a ≡ (n && h) → ((n && true) || a) ≡ (n && (true || h))
      same_and n a h e = ground arith

      none_and : (m n a h : Bool) → a ≡ (n && h) → ((m && false) || a) ≡ (n && (false || h))
      none_and m n a h e = ground arith

      go :
          (i : Option Image)
          → adds_of o images names steady index (head_of children) dir k
            ≡ (not (is_some (find k children)) && has_text k (image_ids o images names index dir))
          → (adds_at o images names steady (head_of children) i k
              || adds_of o images names steady index (head_of children) dir k)
            ≡ (not (is_some (find k children))
                && has_text k (id_of i (image_ids o images names index dir)))
      go none rest = rest
      go (some i) rest = elim (Bool-cases (eq_bytes i.id k)) [
        | inl e ↦
            rw (e, ap (λ (j : Bytes). find j children) ((eq_bytes_iff i.id k).0 e))
              (same_and (not (is_some (find k children))) _
                (has_text k (image_ids o images names index dir)) rest)
        | inr ne ↦ rw ne (
            none_and (not (is_some (find i.id children))) (not (is_some (find k children))) _
              (has_text k (image_ids o images names index dir)) rest)
      ]

  -- The result of `Heads`: a table with the images that are nobody's parent, each at its identifier.
  -- It neither fails nor panics.
  abbrev pub AreHeads : TruncIndex → GraphResult (Table Image) × Graph W → Type 0
  AreHeads index (done hs, g) =
      (k : Bytes)
      → find k hs ≡ (
          if not (has_text k (parent_ids o images names index names))
            && has_text k (image_ids o images names index names)
          then images k
          else none)
  AreHeads index (failed, g) = ⊥
  AreHeads index (crashed, g) = ⊥

  note_head-Holds :
      (children : Table (List Image)) (image : Image) (s : Table Image) (g : Graph W)
      → images image.id ≡ some image
      → IsCopy images s
      → HoldsResult {W = W} (IsCopy images) (note_head o children image s g)
  note_head-Holds children image s g e copy = go (find image.id children)
    where
      go :
          (found : Option (List Image))
          → HoldsResult {W = W}
              (IsCopy images)
              (elim found [ some l ↦ (done s, g) | none ↦ (done (put image.id image s), g) ])
      go (some l) = copy
      go none = put-IsCopy images image s e copy

  AreHeads-Adds :
      (index : TruncIndex) (children : Table (List Image)) (t : GraphResult (Table Image) × Graph W)
      → ((k : Bytes)
          → is_some (find k children) ≡ has_text k (parent_ids o images names index names))
      → Adds o images names steady index
          (adds_of o images names steady index (head_of children) names)
          []
          t
      → HoldsResult {W = W} (IsCopy images) t
      → AreHeads index t
  unfolding find
  AreHeads-Adds index children (done hs, g) keys (same, reads, more) copy = λ k.
      copied images hs k _ copy (
        more k
        ∙ adds_of-head index children names k
        ∙ ap (λ b. not b && has_text k (image_ids o images names index names)) (keys k))
  AreHeads-Adds index children (failed, g) keys h copy = h
  AreHeads-Adds index children (crashed, g) keys h copy = h

  heads_of-AreHeads :
      (index : TruncIndex) (calm : (name : Bytes) → TruncIndex.get name index ≢ panicked)
      (t : GraphResult (Table (List Image)) × Graph W)
      → Adds o images names steady index
          (adds_of o images names steady index (child_of index) names)
          []
          t
      → AreHeads index (heads_of o t)
  unfolding find
  heads_of-AreHeads index calm (done children, g) (same, reads, keys) =
      AreHeads-Adds index children (walk_all o (note_head o children) [] g)
        (λ k. keys k ∙ adds_of-child index names k)
        (subst
          (λ (d : Option (List Bytes)).
            Adds o images names steady index
              (adds_of o images names steady index (head_of children) names) []
              (walk_names o (note_head o children) d [] g))
          (sym reads.1)
          (walk-Adds o images names steady index calm (head_of children) (note_head o children)
            (note_head-Adds index children) names [] g reads same))
        (subst
          (λ (d : Option (List Bytes)).
            HoldsResult {W = W} (IsCopy images) (walk_names o (note_head o children) d [] g))
          (sym reads.1)
          (walk-Holds o images names steady index calm (head_of children) (note_head o children)
            (note_head-Adds index children) (IsCopy images) (note_head-Holds children) names [] g
            reads same (nil-IsCopy images)))
  heads_of-AreHeads index calm (failed, g) h = h
  heads_of-AreHeads index calm (crashed, g) h = h

  -- Where reading an image changes neither the directory nor the images in it, and the index has
  -- held an identifier, Heads neither fails nor panics, and gives a table that has, at every
  -- identifier of an image that is found and that is the parent of none that is found, that
  -- image, and nothing else.
  pub heads-AreHeads :
      (g : Graph W) (id : Bytes) (ids : List Bytes)
      → Segments g.index (id ∷ ids)
      → Reads o images names g.world
      → AreHeads g.index (heads o g)
  unfolding heads by_parent
  heads-AreHeads g id ids segments reads =
      let calm : (name : Bytes) → TruncIndex.get name g.index ≢ panicked =
        λ name. get-ne-panicked g.index name id ids segments in
      heads_of-AreHeads g.index calm (walk_all o (note_child o) [] g) (
        subst
          (λ (d : Option (List Bytes)).
            Adds o images names steady g.index
              (adds_of o images names steady g.index (child_of g.index) names) []
              (walk_names o (note_child o) d [] g))
          (sym reads.1)
          (walk-Adds o images names steady g.index calm (child_of g.index) (note_child o)
            (note_child-Adds g.index calm) names [] g reads refl))
