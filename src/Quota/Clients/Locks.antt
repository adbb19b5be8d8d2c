-- ===== src/Quota/Clients/Locks.antt =====
-- What locking and unlocking change of the mutexes.
use docker_stuff.Base.{
  ◌==◌, ==_iff, ==_refl, ℕ, if◌then◌else◌, ◌≡◌, ◌≢◌, ◌⊎◌, refl, sym, ap, ◌∙◌, Bool, true, false,
  Option, none, some, Bytes, some_inj, Bool-cases, inl, inr, arith,
}
use docker_stuff.Text.Split.{eq_bytes}
use docker_stuff.TagStore.Tables.{find}
use docker_stuff.TagStore.Lookups.{find-put}
use docker_stuff.Quota.{MultiLocker, Locking, locked, blocked, lock, unlock}
use docker_stuff.Quota.Clients.{update}

-- The table of a lock that is taken.
locked_inj : {l m : MultiLocker} → locked l ≡ locked m → l ≡ m
locked_inj e = ap table e
  where
    table : Locking → MultiLocker
    table (locked l) = l
    table (blocked l) = l

not_locked : {l m : MultiLocker} → blocked l ≡ locked m → ⊥
not_locked e = cc

no_table : {l : MultiLocker} → ◌≡◌ {A = Option MultiLocker} none (some l) → ⊥
no_table e = cc

-- What a name can have.
data Mutex (o : Option Bool) : Type 0 where
  unknown : o ≡ none → Mutex o
  free : o ≡ some false → Mutex o
  busy : o ≡ some true → Mutex o

mutex : (o : Option Bool) → Mutex o
mutex none = unknown refl
mutex (some false) = free refl
mutex (some true) = busy refl

-- A mutex that is taken was free, and is the one that changes.
pub lock_taken :
    (k : Bytes) (l l' : MultiLocker)
    → lock k l ≡ locked l'
    → (find k l ≢ some true)
      × ((j : Bytes) → find j l' ≡ (if eq_bytes k j then some true else find j l))
unfolding lock
lock_taken k l l' e = elim (mutex (find k l)) [
  | unknown e0 ↦
      let now = locked_inj (rw (e0, lock) at e) in
      (λ b. cc, λ j. ap (find j) (sym now) ∙ find-put j k true l)
  | free e0 ↦
      let now = locked_inj (rw (e0, lock) at e) in
      (λ b. cc, λ j. ap (find j) (sym now) ∙ find-put j k true l)
  | busy e0 ↦ elim (not_locked (rw (e0, lock) at e)) [ ]
]

pub unlock_freed :
    (k : Bytes) (l l' : MultiLocker)
    → unlock k l ≡ some l'
    → (j : Bytes) → find j l' ≡ (if eq_bytes k j then some false else find j l)
unfolding unlock
unlock_freed k l l' e j = elim (mutex (find k l)) [
  | unknown e0 ↦ elim (no_table (rw (e0, unlock) at e)) [ ]
  | free e0 ↦ elim (no_table (rw (e0, unlock) at e)) [ ]
  | busy e0 ↦ ap (find j) (sym (some_inj (rw (e0, unlock) at e))) ∙ find-put j k false l
]

pub unlock_held : (k : Bytes) (l : MultiLocker) → find k l ≡ some true → unlock k l ≢ none
unfolding unlock
unlock_held k l held stuck = no_table (sym (rw (held, unlock) at stuck))

-- The two cases of an update.
pub update-cases {ℓ} :
    {A : Type ℓ} (f : ℕ → A) (i : ℕ) (a : A) (j : ℕ)
    → ((i ≡ j) × (update f i a j ≡ a)) ⊎ ((i ≢ j) × (update f i a j ≡ f j))
update-cases f i a j = elim (Bool-cases (i == j)) [
  | inl e ↦ inl ((==_iff i j).0 e, rw e refl)
  | inr ne ↦ inr (λ same. (ground (arith, ==_iff i j, ne, same)), rw ne refl)
]

pub update_here {ℓ} : {A : Type ℓ} (f : ℕ → A) (i : ℕ) (a : A) → update f i a i ≡ a
update_here f i a = rw (==_refl i) refl

-- A mutex that cannot be taken is held.
pub lock_waits : (k : Bytes) (l l' : MultiLocker) → lock k l ≡ blocked l' → find k l ≡ some true
unfolding lock
lock_waits k l l' e = elim (mutex (find k l)) [
  | unknown e0 ↦ elim (not_locked (sym (rw (e0, lock) at e))) [ ]
  | free e0 ↦ elim (not_locked (sym (rw (e0, lock) at e))) [ ]
  | busy e0 ↦ e0
]
