-- ===== src/App/Teams.antt =====
-- The teams with access to an app: `find`, `Grant`, `Revoke` and `SetTeams` of
-- globocom/tsuru/app/app.go, and the `Search` of Go's package sort that they use.
pub mod Order
pub mod Search
pub mod Access
pub mod Insertion
pub mod Changes
use docker_stuff.Base.{
  ℕ, zero, suc, ◌+◌, ◌-◌, ◌/◌, ltb, if◌then◌else◌, Bool, true, false, not, List, [], ◌∷◌, ◌++◌,
  Option, none, some, Bytes, length, get_elem?, take, drop,
}
use docker_stuff.Text.Split.{eq_bytes}
use docker_stuff.TagStore.Tables.{less, insert_name}

-- `sort.Search`, on fuel: the half-open range of the candidates shrinks in every round.
unfoldable pub search : ℕ → (ℕ → Bool) → ℕ → ℕ → Option ℕ
search zero f i j = none
search (suc fuel) f i j =
    let h = i + (j - i) / 2 in
    let rest = search fuel f (if f h then i else suc h) (if f h then h else j) in
    if ltb i j then rest else some i

-- `app.Teams[i] >= team.Name`, for an index in range.
abbrev pub at_least : Bytes → List Bytes → ℕ → Bool
at_least name teams i = elim (get_elem? teams i) [ none ↦ true | some t ↦ not (less t name) ]

abbrev pub stands_at : Bytes → List Bytes → ℕ → Bool
stands_at name teams i = elim (get_elem? teams i) [ none ↦ false | some t ↦ eq_bytes t name ]

-- `find`: the position, and whether the team is there. `none` is a search without end.
unfoldable pub find : Bytes → List Bytes → Option (ℕ × Bool)
unfolding search less eq_bytes
find name teams = elim (search (suc (length teams)) (at_least name teams) 0 (length teams)) [
  | none ↦ none
  | some pos ↦ some (pos, stands_at name teams pos)
]

-- `teams[i] = x`; out of range, a panic.
unfoldable pub put_at : ℕ → Bytes → List Bytes → Option (List Bytes)
put_at i x [] = none
put_at zero x (t ∷ teams) = some (x ∷ teams)
put_at (suc i) x (t ∷ teams) = elim (put_at i x teams) [ none ↦ none | some rest ↦ some (t ∷ rest) ]

-- The loop of `Grant`, from the index `i` on, with `tmp`.
unfoldable pub shift : ℕ → ℕ → Bytes → List Bytes → Option (List Bytes)
unfolding put_at
shift zero i tmp teams = some teams
shift (suc rounds) i tmp teams = elim (get_elem? teams i) [
  | none ↦ none
  | some t ↦ elim (put_at (suc i) tmp teams) [
    | none ↦ none
    | some teams' ↦ shift rounds (suc i) t teams'
  ]
]

pub data Change : Type 0 where
  granted : List Bytes → Change
  already_access no_access : Change
  revoked : List Bytes → Change
  panicked : Change
  running : Change

-- The part of `Grant` after the search: the loop on the longer list, and the name.
unfoldable pub insert_in : ℕ → ℕ → Bytes → List Bytes → Option (List Bytes)
unfolding shift put_at
insert_in rounds pos name teams = elim (get_elem? teams pos) [
  | none ↦ none
  | some tmp ↦ elim (shift rounds pos tmp teams) [
    | none ↦ none
    | some shifted ↦ put_at pos name shifted
  ]
]

abbrev pub insert_at : ℕ → Bytes → List Bytes → Option (List Bytes)
insert_at pos name teams = insert_in (length teams - pos) pos name (teams ++ [] ∷ [])

abbrev pub granted_or_panic : Option (List Bytes) → Change
granted_or_panic none = panicked
granted_or_panic (some teams) = granted teams

unfoldable pub grant : Bytes → List Bytes → Change
unfolding find insert_in
grant name teams = elim (find name teams) [
  | none ↦ running
  | some (pos, found) ↦
      if found then already_access else granted_or_panic (insert_at pos name teams)
]

unfoldable pub revoke : Bytes → List Bytes → Change
unfolding find
revoke name teams = elim (find name teams) [
  | none ↦ running
  | some (index, found) ↦
      if found then revoked (take index teams ++ drop (suc index) teams) else no_access
]

-- `SetTeams`
unfoldable pub set_teams : List Bytes → List Bytes
unfolding insert_name
set_teams [] = []
set_teams (name ∷ names) = insert_name name (set_teams names)
