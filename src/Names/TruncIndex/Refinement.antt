-- ===== src/Names/TruncIndex/Refinement.antt =====
-- Whatever is called, an index answers as the list of identifiers that it promises.
use docker_stuff.Base.{◌≡◌, ◌≢◌, refl, ap, ◌∙◌, List, [], ◌∷◌, Bytes, All}
use docker_stuff.Text.Split.{Lacks}
use docker_stuff.Names.TruncIndex.{TruncIndex, IndexResult, new_trunc_index, add, get, delete}
use docker_stuff.Names.TruncIndex.Spec.{get_spec, add_spec, delete_spec}
use docker_stuff.Names.TruncIndex.Segments.{Segments}
use docker_stuff.Names.TruncIndex.Steps.{get_lem, add_lem, delete_lem, Agrees}

-- A call of an index, and what it answers.
pub data Call : Type 0 where
  adding deleting getting : Bytes → Call

pub data Answer : Type 0 where
  changed : IndexResult (Unit {0}) → Answer
  got : IndexResult Bytes → Answer

-- The text of a call is not empty, and holds no space unless it is one to add.
abbrev pub IsProper : Call → Type 0
IsProper (adding id) = id ≢ []
IsProper (deleting id) = (id ≢ []) × Lacks b' ' id
IsProper (getting id) = (id ≢ []) × Lacks b' ' id

unfoldable pub answer : Call → TruncIndex → Answer × TruncIndex
unfolding add delete get
answer (adding id) idx = let (r, new) = add id idx in (changed r, new)
answer (deleting id) idx = let (r, new) = delete id idx in (changed r, new)
answer (getting id) idx = (got (get id idx), idx)

unfoldable pub answer_spec : Call → List Bytes → Answer × List Bytes
answer_spec (adding id) ids = let (r, new) = add_spec id ids in (changed r, new)
answer_spec (deleting id) ids = let (r, new) = delete_spec id ids in (changed r, new)
answer_spec (getting id) ids = (got (get_spec id ids), ids)

unfoldable pub answers : List Call → TruncIndex → List Answer
unfolding answer
answers [] idx = []
answers (call ∷ calls) idx = let (a, new) = answer call idx in a ∷ answers calls new

unfoldable pub answers_spec : List Call → List Bytes → List Answer
unfolding answer_spec
answers_spec [] ids = []
answers_spec (call ∷ calls) ids = let (a, new) = answer_spec call ids in a ∷ answers_spec calls new

changed_step :
    (calls : List Call) (t : IndexResult (Unit {0}) × TruncIndex)
    (spec : IndexResult (Unit {0}) × List Bytes)
    → Agrees t spec
    → ((idx : TruncIndex) (gs : List Bytes)
        → Segments idx gs
        → answers calls idx ≡ answers_spec calls idx.ids)
    → changed t.0 ∷ answers calls t.1 ≡ changed spec.0 ∷ answers_spec calls spec.1
changed_step calls t spec (gs, seg, e) rest =
    ap (λ l. changed t.0 ∷ l) (rest t.1 gs seg)
    ∙ ap (λ (p : IndexResult (Unit {0}) × List Bytes). changed p.0 ∷ answers_spec calls p.1) e

answers-Segments :
    (calls : List Call) (idx : TruncIndex) (gs : List Bytes)
    → Segments idx gs
    → All IsProper calls
    → answers calls idx ≡ answers_spec calls idx.ids
unfolding answers answers_spec answer answer_spec
answers-Segments [] idx gs seg proper = refl
answers-Segments (adding [] ∷ calls) idx gs seg proper = elim (proper.0 refl) [ ]
answers-Segments (adding (c ∷ s) ∷ calls) idx gs seg proper =
    changed_step calls (add (c ∷ s) idx) (add_spec (c ∷ s) idx.ids) (add_lem idx c s gs seg)
      (λ idx gs seg. answers-Segments calls idx gs seg proper.1)
answers-Segments (deleting [] ∷ calls) idx gs seg proper = elim (proper.0.0 refl) [ ]
answers-Segments (deleting (c ∷ s) ∷ calls) idx gs seg proper =
    changed_step calls (delete (c ∷ s) idx) (delete_spec (c ∷ s) idx.ids)
      (delete_lem idx c s gs seg proper.0.1)
      (λ idx gs seg. answers-Segments calls idx gs seg proper.1)
answers-Segments (getting [] ∷ calls) idx gs seg proper = elim (proper.0.0 refl) [ ]
answers-Segments (getting (c ∷ s) ∷ calls) idx gs seg proper =
    ap (λ (r : IndexResult Bytes). got r ∷ answers calls idx) (get_lem idx c s gs seg proper.0.1)
    ∙ ap (λ l. got (get_spec (c ∷ s) idx.ids) ∷ l) (answers-Segments calls idx gs seg proper.1)

-- Whatever is added, deleted and looked up, an index that starts empty answers as a list of
-- identifiers: Get gives the one identifier that the text is a prefix of, and an error if there
-- is none or more than one; Add refuses a space and an identifier that is there; Delete takes an
-- identifier out if it is the prefix of no other one. The texts are not empty, and those that
-- are looked up or deleted hold no space.
pub answers-answers_spec :
    (calls : List Call) → All IsProper calls → answers calls new_trunc_index ≡ answers_spec calls []
answers-answers_spec calls proper =
    answers-Segments calls new_trunc_index [] (refl, refl, tt) proper
