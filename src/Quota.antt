-- ===== src/Quota.antt =====
-- globocom/tsuru/quota/quota.go and lock.go: the quotas of users and of apps, over a collection of a
-- database, which is a parameter (`Collection`), and the mutexes by owner.
pub mod Documented
pub mod Reserve
pub mod Clients
pub mod Undo
pub mod Examples
use docker_stuff.Base.{
  ℕ, ◌+◌, ◌-◌, ◌%◌, ◌^◌, ◌==◌, ltb, if◌then◌else◌, Bool, true, false, List, [], ◌∷◌, Option, none,
  some, Bytes, length, ◌⊎◌, inl, inr,
}
use docker_stuff.TagStore.Tables.{find, put}

-- `usage`, but for the mutex in it, which nothing uses. `limit` is a uint of 64 bits.
pub record Usage : Type 0 where
  pub items : List Bytes
  pub limit : ℕ

-- The answer of the database: `duplicate` is the code 11000, `not_found` the error of that text.
pub data DbResult : Type 0 where
  stored duplicate not_found db_failed : DbResult

-- The collection of the usages, by owner, in a world. `find_one` is `none` for any error.
pub record Collection (W : Type 0) : Type 0 where
  pub connected : W → Bool
  pub insert : Bytes → ℕ → W → DbResult × W
  pub remove : Bytes → W → DbResult × W
  pub find_one : Bytes → W → Option Usage
  pub add_to_set : Bytes → List Bytes → W → DbResult × W
  pub pull_all : Bytes → List Bytes → W → DbResult × W
  pub set_limit : Bytes → ℕ → W → DbResult × W

pub data QuotaError : Type 0 where
  quota_already_exists quota_not_found no_connection : QuotaError
  database : DbResult → QuotaError
  quota_exceeded : ℕ → ℕ → QuotaError

abbrev pub Outcome : Type 0
Outcome = Option QuotaError

-- `int(limit) - len(items)`, in 64 bits, and 0 for what is negative.
abbrev pub available : ℕ → ℕ → ℕ
available limit used =
    let rest = (limit + (2 ^ 64 - used)) % 2 ^ 64 in if ltb rest (2 ^ 63) then rest else 0

-- Which error of `Create` an answer is.
abbrev pub inserted : DbResult → Outcome
inserted stored = none
inserted duplicate = some quota_already_exists
inserted not_found = some (database not_found)
inserted db_failed = some (database db_failed)

-- The same for `Delete`, `Release` and `Set`.
abbrev pub updated : DbResult → Outcome
updated stored = none
updated duplicate = some (database duplicate)
updated not_found = some quota_not_found
updated db_failed = some (database db_failed)

-- The last error of `Reserve` is passed on.
abbrev pub passed_on : DbResult → Outcome
passed_on stored = none
passed_on duplicate = some (database duplicate)
passed_on not_found = some (database not_found)
passed_on db_failed = some (database db_failed)

-- What `Reserve` tests between the two calls of the database.
abbrev pub refusal : Option Usage → List Bytes → Outcome
refusal none items = some quota_not_found
refusal (some u) items =
    let rest = available u.limit (length u.items) in
    if ltb rest (length items) then some (quota_exceeded (length items) rest) else none

module _ {W : Type 0} (c : Collection W) where
  unfoldable pub create : Bytes → ℕ → W → Outcome × W
  create owner quota w =
      let (r, w') = c.insert owner quota w in
      if c.connected w then (inserted r, w') else (some no_connection, w)

  unfoldable pub delete : Bytes → W → Outcome × W
  delete owner w =
      let (r, w') = c.remove owner w in
      if c.connected w then (updated r, w') else (some no_connection, w)

  -- The second call of `Reserve`.
  abbrev pub add_items : Bytes → List Bytes → W → Outcome × W
  add_items owner items w = let (r, w') = c.add_to_set owner items w in (passed_on r, w')

  abbrev pub unless_refused : Outcome → Bytes → List Bytes → W → Outcome × W
  unless_refused (some e) owner items w = (some e, w)
  unless_refused none owner items w = add_items owner items w

  -- `Reserve`, with its lock free.
  unfoldable pub reserve : Bytes → List Bytes → W → Outcome × W
  reserve owner items w =
      if c.connected w
      then unless_refused (refusal (c.find_one owner w) items) owner items w
      else (some no_connection, w)

  unfoldable pub release : Bytes → List Bytes → W → Outcome × W
  release owner items w =
      let (r, w') = c.pull_all owner items w in
      if c.connected w then (updated r, w') else (some no_connection, w)

  unfoldable pub set : Bytes → ℕ → W → Outcome × W
  set owner value w =
      let (r, w') = c.set_limit owner value w in
      if c.connected w then (updated r, w') else (some no_connection, w)

  abbrev pub items_of : Option Usage → QuotaError ⊎ (List Bytes × ℕ)
  items_of none = inl quota_not_found
  items_of (some u) = inr (u.items, available u.limit (length u.items))

  unfoldable pub items : Bytes → W → QuotaError ⊎ (List Bytes × ℕ)
  items owner w = if c.connected w then items_of (c.find_one owner w) else inl no_connection

-- `multiLocker`: whether the mutex of a name is locked. The mutex `mut` around the map is held for
-- the length of one of its operations, which are one step each.
abbrev pub MultiLocker : Type 0
MultiLocker = List (Bytes × Bool)

pub data Locking : Type 0 where
  locked : MultiLocker → Locking
  blocked : MultiLocker → Locking

unfoldable pub lock : Bytes → MultiLocker → Locking
unfolding find put
lock name l = elim (find name l) [
  | none ↦ locked (put name true l)
  | some busy ↦ if busy then blocked l else locked (put name true l)
]

-- `none` is a panic: a name without a mutex, or a mutex that is not locked.
unfoldable pub unlock : Bytes → MultiLocker → Option MultiLocker
unfolding find put
unlock name l = elim (find name l) [
  | none ↦ none
  | some busy ↦ if busy then some (put name false l) else none
]
