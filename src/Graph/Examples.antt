-- ===== src/Graph/Examples.antt =====
-- A graph of an image and its child.
use docker_stuff.Base.{
  ◌≡◌, refl, if◌then◌else◌, true, List, [], ◌∷◌, Option, none, some, Bytes, codes, All,
}
use docker_stuff.Text.Split.{Lacks, eq_bytes, contains_byte, has_text}
use docker_stuff.Text.Trim.{has_prefix}
use docker_stuff.Names.TruncIndex.{
  TruncIndex, new_trunc_index, lookup, one_offset, offsets, index_of, remove_id,
}
use docker_stuff.Names.TruncIndex
use docker_stuff.TagStore.Tables.{find, put}
use docker_stuff.Graph.{
  Image, Files, Graph, done, failed, new_graph, add_all, get, exists_image, walk, by_parent, heads,
  map, register, delete,
}
use docker_stuff.Graph.Heads.{AreHeads, heads-AreHeads}

abbrev base : Image
base = record { id = codes "a1"; parent = [] }

abbrev child : Image
child = record { id = codes "b2"; parent = codes "a1" }

abbrev images : Bytes → Option Image
images name =
    if eq_bytes name (codes "a1")
    then some base
    else if eq_bytes name (codes "b2")
    then some child
    else none

abbrev names : List Bytes
names = codes "a1" ∷ codes "b2" ∷ codes "_tmp" ∷ []

-- Only `a1` can be taken out.
abbrev files : Files (List Bytes)
files = record {
  make_root = λ w. (true, w);
  read_dir = λ w. some names;
  load = λ name w. (images name, w);
  mktemp = λ w. (some (codes "tmp"), w);
  store_image = λ image tmp w. (true, w);
  rename_in = λ tmp id w. (true, id ∷ w);
  rename_out = λ id tmp w. (eq_bytes id (codes "a1"), w);
  remove_all = λ tmp w. (true, w);
}

abbrev graph : Graph (List Bytes)
graph = record { index = record { ids = names; bytes = codes " a1 b2 _tmp " }; world = [] }

names_indexed : new_graph files [] ≡ done graph
unfolding new_graph add_all TruncIndex.add contains_byte has_text eq_bytes
names_indexed = refl

one_head : heads files graph ≡ (done ((codes "b2", child) ∷ []), graph)
unfolding heads by_parent walk get TruncIndex.get lookup one_offset offsets index_of has_prefix
    eq_bytes find put
one_head = refl

two_images : map files graph ≡ (done ((codes "a1", base) ∷ (codes "b2", child) ∷ []), graph)
unfolding map walk get TruncIndex.get lookup one_offset offsets index_of has_prefix eq_bytes find
    put
two_images = refl

-- An image that is there is not registered again, and one that cannot be taken out leaves the index.
not_again : (register files base graph).0 ≡ failed
unfolding register exists_image get TruncIndex.get lookup one_offset offsets index_of has_prefix
    contains_byte eq_bytes
not_again = refl

lost : (delete files (codes "b") graph).1.index.ids ≡ codes "a1" ∷ codes "_tmp" ∷ []
unfolding delete TruncIndex.get TruncIndex.delete lookup one_offset offsets index_of has_prefix
    has_text remove_id eq_bytes
lost = refl

no_space : All (Lacks b' ') names
no_space = (
  ((λ e. cc), ((λ e. cc), tt)),
  (((λ e. cc), ((λ e. cc), tt)), (((λ e. cc), ((λ e. cc), ((λ e. cc), ((λ e. cc), tt)))), tt)),
)

heads-AreHeads_example :
    AreHeads files images names (λ name w reads. reads) graph.index (heads files graph)
heads-AreHeads_example =
    heads-AreHeads files images names (λ name w reads. reads) graph (codes "a1")
      (codes "b2" ∷ codes "_tmp" ∷ []) (refl, refl, no_space) ((λ name. refl), refl)
