-- ===== src/Quota/Clients.antt =====
-- Calls of the quotas by any number of goroutines, interleaved between their accesses to the database
-- and to the locks.
pub mod Worlds
pub mod Locks
pub mod Steps
pub mod Kept
pub mod Progress
use docker_stuff.Base.{
  ℕ, ◌+◌, ◌^◌, ◌≤◌, ◌<◌, ◌==◌, ==_iff, if◌then◌else◌, ◌≡◌, ◌≢◌, ◌⊎◌, refl, sym, ap, ◌∙◌, Bool, true,
  false, List, [], ◌∷◌, Option, none, some, Bytes, length, arith, Bool-cases, inl, inr,
}
use mathlib.Core.Path.{subst}
use docker_stuff.Text.Split.{eq_bytes, eq_bytes_iff}
use docker_stuff.TagStore.Tables.{find, put}
use docker_stuff.TagStore.Lookups.{find-put}
use docker_stuff.Quota.{
  Usage, Collection, QuotaError, Outcome, refusal, create, release, set, add_items, MultiLocker,
  Locking, locked, blocked, lock, unlock,
}
use docker_stuff.Quota.Documented.{
  Documented, Either, Effect-Either, on_usage, unless_there, add_each, pull_each, length-add_each,
  length-pull_each,
}
use docker_stuff.Quota.Reserve.{refusal-fits}

abbrev pub update {ℓ} : {A : Type ℓ} → (ℕ → A) → ℕ → A → ℕ → A
update f i a j = if i == j then a else f j

-- Where a goroutine stands in `Reserve`.
pub data Pc : Type 0 where
  idle : Pc
  waiting : Bytes → List Bytes → Pc
  checking : Bytes → List Bytes → Pc
  adding : Bytes → List Bytes → Pc
  leaving : Bytes → Pc

-- The owner whose mutex a goroutine has.
abbrev pub holds : Pc → Option Bytes
holds idle = none
holds (waiting owner items) = none
holds (checking owner items) = some owner
holds (adding owner items) = some owner
holds (leaving owner) = some owner

module _ {W : Type 0} (c : Collection W) where
  pub record System : Type 0 where
    pub world : W
    pub locks : MultiLocker
    pub pc : ℕ → Pc

  abbrev pub goes : System → ℕ → Pc → System
  goes s i p = record s { pc = update s.pc i p }

  -- A step of one goroutine. `Release`, `Set` with a limit that is no lower, and `Create` are one
  -- access to the database each, and come at any time.
  pub data Step (s : System) : System → Type 0 where
    call :
        (i : ℕ) (owner : Bytes) (items : List Bytes)
        → s.pc i ≡ idle
        → Step s (goes s i (waiting owner items))
    take :
        (i : ℕ) (owner : Bytes) (items : List Bytes) (l : MultiLocker)
        → s.pc i ≡ waiting owner items
        → lock owner s.locks ≡ locked l
        → Step s (record (goes s i (checking owner items)) { locks = l })
    refuse :
        (i : ℕ) (owner : Bytes) (items : List Bytes) (e : QuotaError)
        → s.pc i ≡ checking owner items
        → refusal (c.find_one owner s.world) items ≡ some e
        → Step s (goes s i (leaving owner))
    accept :
        (i : ℕ) (owner : Bytes) (items : List Bytes)
        → s.pc i ≡ checking owner items
        → refusal (c.find_one owner s.world) items ≡ none
        → Step s (goes s i (adding owner items))
    add :
        (i : ℕ) (owner : Bytes) (items : List Bytes)
        → s.pc i ≡ adding owner items
        → Step s (record (goes s i (leaving owner)) { world = (add_items c owner items s.world).1 })
    leave :
        (i : ℕ) (owner : Bytes) (l : MultiLocker)
        → s.pc i ≡ leaving owner
        → unlock owner s.locks ≡ some l
        → Step s (record (goes s i idle) { locks = l })
    released :
        (owner : Bytes) (items : List Bytes)
        → Step s (record s { world = (release c owner items s.world).1 })
    raised :
        (owner : Bytes) (value : ℕ)
        → value < 2 ^ 63
        → ((u : Usage) → c.find_one owner s.world ≡ some u → u.limit ≤ value)
        → Step s (record s { world = (set c owner value s.world).1 })
    created :
        (owner : Bytes) (limit : ℕ)
        → limit < 2 ^ 63
        → Step s (record s { world = (create c owner limit s.world).1 })

  -- From any quotas that are kept.
  abbrev pub Kept : W → Type 0
  Kept w =
      (k : Bytes) (u : Usage)
      → c.find_one k w ≡ some u
      → (length u.items ≤ u.limit) × (u.limit < 2 ^ 63)

  pub data Reach (w : W) : System → Type 0 where
    start : Reach w (record { world = w; locks = []; pc = λ i. idle })
    next : {s t : System} → Reach w s → Step s t → Reach w t

  -- A goroutine that may add its items has the room for them.
  abbrev pub Room : W → Pc → Type 0
  Room w idle = Unit {0}
  Room w (waiting owner items) = Unit {0}
  Room w (checking owner items) = Unit {0}
  Room w (adding owner items) =
      (u : Usage) × (c.find_one owner w ≡ some u) × (length u.items + length items ≤ u.limit)
  Room w (leaving owner) = Unit {0}

  -- A world in which nobody has less room than before.
  abbrev pub Roomier : W → W → Type 0
  Roomier w w' =
      (k : Bytes) (u : Usage)
      → c.find_one k w ≡ some u
      → (v : Usage) × (c.find_one k w' ≡ some v)
        × (length v.items ≤ length u.items)
        × (u.limit ≤ v.limit)

  pub Room-Roomier : (w w' : W) (p : Pc) → Roomier w w' → Room w p → Room w' p
  Room-Roomier w w' idle more room = tt
  Room-Roomier w w' (waiting owner items) more room = tt
  Room-Roomier w w' (checking owner items) more room = tt
  Room-Roomier w w' (adding owner items) more (u, there, fits) =
      let (v, now, shorter, higher) = more owner u there in
      (v, now, omega (arith, fits, shorter, higher))
  Room-Roomier w w' (leaving owner) more room = tt

  pub record Inv (s : System) : Type 0 where
    pub kept : Kept s.world
    pub room : (i : ℕ) → Room s.world (s.pc i)
    pub busy : (i : ℕ) (k : Bytes) → holds (s.pc i) ≡ some k → find k s.locks ≡ some true
    pub alone : (i j : ℕ) (k : Bytes) → holds (s.pc i) ≡ some k → holds (s.pc j) ≡ some k → i ≡ j
    pub owned : (k : Bytes) → find k s.locks ≡ some true → (i : ℕ) × (holds (s.pc i) ≡ some k)
