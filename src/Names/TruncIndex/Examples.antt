-- ===== src/Names/TruncIndex/Examples.antt =====
-- Calls of an index with two identifiers that begin alike.
use docker_stuff.Base.{◌≡◌, refl, [], ◌∷◌, List, All, codes}
use docker_stuff.Text.Split.{contains_byte, has_text, eq_bytes}
use docker_stuff.Text.Trim.{has_prefix}
use docker_stuff.Names.TruncIndex.{
  ok, err, panicked, no_such_id, new_trunc_index, add, get, delete, lookup, one_offset, offsets,
  index_of, remove_id,
}
use docker_stuff.Names.TruncIndex.Refinement.{
  Call, adding, deleting, getting, changed, got, answers, answer, answers_spec, IsProper,
  answers-answers_spec,
}

-- The first identifier is a prefix of the second one, and is deleted after it only.
abbrev calls : List Call
calls =
    adding (codes "ab")
    ∷ getting (codes "a")
    ∷ adding (codes "abc")
    ∷ getting (codes "ab")
    ∷ deleting (codes "ab")
    ∷ deleting (codes "abc")
    ∷ getting (codes "a")
    ∷ deleting (codes "ab")
    ∷ []

calls_answered :
    answers calls new_trunc_index
    ≡ changed (ok tt)
      ∷ got (ok (codes "ab"))
      ∷ changed (ok tt)
      ∷ got (err no_such_id)
      ∷ changed (err no_such_id)
      ∷ changed (ok tt)
      ∷ got (ok (codes "ab"))
      ∷ changed (ok tt)
      ∷ []
unfolding answers answer add get delete lookup one_offset offsets index_of remove_id has_prefix
    contains_byte has_text eq_bytes
calls_answered = refl

-- The empty text, on an index without identifiers
get_empty : get [] new_trunc_index ≡ panicked
unfolding get lookup one_offset offsets index_of has_prefix
get_empty = refl

calls-IsProper : All IsProper calls
calls-IsProper = (
  (λ e. cc),
  (
    ((λ e. cc), ((λ e. cc), tt)),
    (
      (λ e. cc),
      (
        ((λ e. cc), ((λ e. cc), ((λ e. cc), tt))),
        (
          ((λ e. cc), ((λ e. cc), ((λ e. cc), tt))),
          (
            ((λ e. cc), ((λ e. cc), ((λ e. cc), ((λ e. cc), tt)))),
            (((λ e. cc), ((λ e. cc), tt)), (((λ e. cc), ((λ e. cc), ((λ e. cc), tt))), tt)),
          ),
        ),
      ),
    ),
  ),
)

answers-answers_spec_example : answers calls new_trunc_index ≡ answers_spec calls []
answers-answers_spec_example = answers-answers_spec calls calls-IsProper
