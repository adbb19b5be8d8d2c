-- ===== src/Graph.antt =====
-- `Graph` of dotcloud/docker/graph.go: the index of its images and the tables made of them. The
-- files are a world of any type; `load` stands for `LoadImage` and, for an image without a size, for
-- `StoreSize`.
pub mod Walk
pub mod Copies
pub mod Heads
pub mod Examples
use docker_stuff.Base.{
  if◌then◌else◌, Bool, true, false, not, ◌||◌, List, [], ◌∷◌, ◌++◌, Option, none, some, Bytes,
}
use docker_stuff.Text.Split.{eq_bytes, contains_byte}
use docker_stuff.Names.TruncIndex.{TruncIndex, IndexResult, ok, err, panicked, new_trunc_index}
use docker_stuff.Names.TruncIndex
use docker_stuff.TagStore.Tables.{find, put}

pub record Image : Type 0 where
  pub id : Bytes
  pub parent : Bytes

pub record Files (W : Type 0) : Type 0 where
  pub make_root : W → Bool × W
  pub read_dir : W → Option (List Bytes)
  pub load : Bytes → W → Option Image × W
  pub mktemp : W → Option Bytes × W
  pub store_image : Image → Bytes → W → Bool × W
  pub rename_in : Bytes → Bytes → W → Bool × W
  pub rename_out : Bytes → Bytes → W → Bool × W
  pub remove_all : Bytes → W → Bool × W

pub record Graph (W : Type 0) : Type 0 where
  pub index : TruncIndex
  pub world : W

-- `crashed` is a panic of a look-up in the index.
pub data GraphResult (A : Type 0) : Type 0 where
  done : A → GraphResult A
  failed : GraphResult A
  crashed : GraphResult A

abbrev pub Table : Type 0 → Type 0
Table A = List (Bytes × A)

module _ {W : Type 0} (o : Files W) where
  abbrev pub has_id : Bytes → Option Image × W → TruncIndex → GraphResult Image × Graph W
  has_id id (none, w) index = (failed, record { index = index; world = w })
  has_id id (some image, w) index =
      (if eq_bytes image.id id then done image else failed, record { index = index; world = w })

  abbrev pub loaded : IndexResult Bytes → Graph W → GraphResult Image × Graph W
  loaded (ok id) g = has_id id (o.load id g.world) g.index
  loaded (err e) g = (failed, g)
  loaded panicked g = (crashed, g)

  unfoldable pub get : Bytes → Graph W → GraphResult Image × Graph W
  unfolding TruncIndex.get
  get name g = loaded (TruncIndex.get name g.index) g

  abbrev found_image : GraphResult Image × Graph W → GraphResult Bool × Graph W
  found_image (done image, g) = (done true, g)
  found_image (failed, g) = (done false, g)
  found_image (crashed, g) = (crashed, g)

  unfoldable pub exists_image : Bytes → Graph W → GraphResult Bool × Graph W
  unfolding get
  exists_image id g = found_image (get id g)

  -- `ValidateID`
  abbrev pub validate_id : Bytes → Bool
  validate_id [] = false
  validate_id (c ∷ id) = not (contains_byte b':' (c ∷ id))

  abbrev add_id : Bytes → Graph W → Graph W
  add_id id g = record g { index = (TruncIndex.add id g.index).1 }

  -- `defer os.RemoveAll(tmp)`
  abbrev removing : Bytes → GraphResult (Unit {0}) × Graph W → GraphResult (Unit {0}) × Graph W
  removing tmp (r, g) = (r, record g { world = (o.remove_all tmp g.world).1 })

  abbrev renamed : Bytes → Bool × W → TruncIndex → GraphResult (Unit {0}) × Graph W
  renamed id (false, w) index = (failed, record { index = index; world = w })
  renamed id (true, w) index = (done tt, add_id id (record { index = index; world = w }))

  abbrev stored : Image → Bytes → Bool × W → TruncIndex → GraphResult (Unit {0}) × Graph W
  stored image tmp (false, w) index = (failed, record { index = index; world = w })
  stored image tmp (true, w) index = renamed image.id (o.rename_in tmp image.id w) index

  abbrev in_temp : Image → Option Bytes × W → TruncIndex → GraphResult (Unit {0}) × Graph W
  in_temp image (none, w) index = removing [] (failed, record { index = index; world = w })
  in_temp image (some tmp, w) index =
      removing tmp (stored image tmp (o.store_image image tmp w) index)

  abbrev unless_there : Image → GraphResult Bool × Graph W → GraphResult (Unit {0}) × Graph W
  unless_there image (done true, g) = (failed, g)
  unless_there image (done false, g) = in_temp image (o.mktemp g.world) g.index
  unless_there image (failed, g) = (failed, g)
  unless_there image (crashed, g) = (crashed, g)

  unfoldable pub register : Image → Graph W → GraphResult (Unit {0}) × Graph W
  unfolding exists_image TruncIndex.add contains_byte
  register image g =
      if validate_id image.id then unless_there image (exists_image image.id g) else (failed, g)

  abbrev taken_out : Bytes → Bool × W → TruncIndex → GraphResult (Unit {0}) × Graph W
  taken_out tmp (false, w) index = (failed, record { index = index; world = w })
  taken_out tmp (true, w) index =
      let (good, w') = o.remove_all tmp w in
      (if good then done tt else failed, record { index = index; world = w' })

  abbrev with_temp : Bytes → Option Bytes × W → TruncIndex → GraphResult (Unit {0}) × Graph W
  with_temp id (none, w) index = (failed, record { index = index; world = w })
  with_temp id (some tmp, w) index =
      taken_out tmp (o.rename_out id tmp w) (TruncIndex.delete id index).1

  abbrev delete_id : IndexResult Bytes → Graph W → GraphResult (Unit {0}) × Graph W
  delete_id (ok id) g = with_temp id (o.mktemp g.world) g.index
  delete_id (err e) g = (failed, g)
  delete_id panicked g = (crashed, g)

  unfoldable pub delete : Bytes → Graph W → GraphResult (Unit {0}) × Graph W
  unfolding TruncIndex.get TruncIndex.delete
  delete name g = delete_id (TruncIndex.get name g.index) g

  -- `restore`: an error of `Add` is ignored.
  unfoldable pub add_all : List Bytes → TruncIndex → TruncIndex
  unfolding TruncIndex.add
  add_all [] index = index
  add_all (id ∷ ids) index = add_all ids (TruncIndex.add id index).1

  abbrev restored : Option (List Bytes) → W → GraphResult (Graph W)
  restored none w = failed
  restored (some ids) w = done (record { index = add_all ids new_trunc_index; world = w })

  abbrev rooted : Bool × W → GraphResult (Graph W)
  rooted (false, w) = failed
  rooted (true, w) = restored (o.read_dir w) w

  unfoldable pub new_graph : W → GraphResult (Graph W)
  unfolding add_all
  new_graph w = rooted (o.make_root w)

  -- The loop of `walkAll` over the names, with what the handler collects.
  module _ {S : Type 0} (handler : Image → S → Graph W → GraphResult S × Graph W) where
    abbrev pub handled : S → GraphResult Image × Graph W → GraphResult S × Graph W
    handled s (done image, g) = handler image s g
    handled s (failed, g) = (done s, g)
    handled s (crashed, g) = (crashed, g)

    unfoldable pub walk : List Bytes → S → Graph W → GraphResult S × Graph W
    unfolding get
    walk [] s g = (done s, g)
    walk (name ∷ names) s g =
        let (r, next) = handled s (get name g) in
        elim r [ done t ↦ walk names t next | failed ↦ (failed, next) | crashed ↦ (crashed, next) ]

    abbrev pub walk_names : Option (List Bytes) → S → Graph W → GraphResult S × Graph W
    walk_names none s g = (failed, g)
    walk_names (some names) s g = walk names s g

    abbrev pub walk_all : S → Graph W → GraphResult S × Graph W
    walk_all s g = walk_names (o.read_dir g.world) s g

  abbrev pub note_image : Image → Table Image → Graph W → GraphResult (Table Image) × Graph W
  note_image image images g = (done (put image.id image images), g)

  unfoldable pub map : Graph W → GraphResult (Table Image) × Graph W
  unfolding walk put
  map g = walk_all note_image [] g

  abbrev pub push_child : Image → Bytes → Table (List Image) → Table (List Image)
  push_child image parent children = elim (find parent children) [
    | some l ↦ put parent (l ++ image ∷ []) children
    | none ↦ put parent (image ∷ []) children
  ]

  abbrev pub note_parent :
      Image
      → Table (List Image)
      → GraphResult Image × Graph W
      → GraphResult (Table (List Image)) × Graph W
  note_parent image children (done parent, g) = (done (push_child image parent.id children), g)
  note_parent image children (failed, g) = (done children, g)
  note_parent image children (crashed, g) = (crashed, g)

  abbrev pub note_child :
      Image → Table (List Image) → Graph W → GraphResult (Table (List Image)) × Graph W
  note_child image children g = note_parent image children (get image.parent g)

  unfoldable pub by_parent : Graph W → GraphResult (Table (List Image)) × Graph W
  unfolding walk put find
  by_parent g = walk_all note_child [] g

  abbrev pub note_head :
      Table (List Image) → Image → Table Image → Graph W → GraphResult (Table Image) × Graph W
  note_head children image heads g = elim (find image.id children) [
    | some l ↦ (done heads, g)
    | none ↦ (done (put image.id image heads), g)
  ]

  abbrev pub heads_of :
      GraphResult (Table (List Image)) × Graph W → GraphResult (Table Image) × Graph W
  heads_of (done children, g) = walk_all (note_head children) [] g
  heads_of (failed, g) = (failed, g)
  heads_of (crashed, g) = (crashed, g)

  unfoldable pub heads : Graph W → GraphResult (Table Image) × Graph W
  unfolding by_parent
  heads g = heads_of (by_parent g)
