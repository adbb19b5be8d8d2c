-- ===== src/Quota/Clients/Progress.antt =====
-- Whether the goroutines in `Reserve` can go on.
use docker_stuff.Base.{
  ℕ, ◌≡◌, ◌≢◌, ◌⊎◌, refl, sym, ap, ◌∙◌, Option, none, some, List, Bytes, inl, inr, Option-cases,
}
use docker_stuff.Quota.{Collection, refusal, add_items, Locking, locked, blocked, lock, unlock}
use docker_stuff.Quota.Documented.{Documented}
use docker_stuff.Quota.Clients.{
  update, Pc, idle, waiting, checking, adding, leaving, holds, System, goes, Step, take, refuse,
  accept, add, leave, Kept, Reach, Inv,
}
use docker_stuff.Quota.Clients.Locks.{update_here, lock_waits, unlock_held}
use docker_stuff.Quota.Clients.Kept.{Reach-Inv}

module _ {W : Type 0} (c : Collection W) where
  -- A step that changes where a goroutine stands.
  abbrev pub Moves : System c → ℕ → Type 0
  Moves s i = (t : System c) × Step c s t × (t.pc i ≢ s.pc i)

  Moves-update :
      (s : System c) (i : ℕ) (p q : Pc) (t : System c)
      → s.pc i ≡ p
      → t.pc ≡ update s.pc i q
      → q ≢ p
      → Step c s t
      → Moves s i
  Moves-update s i p q t here there ne step = (
    t,
    step,
    λ e. ne (sym (update_here s.pc i q) ∙ ap (λ (f : ℕ → Pc). f i) (sym there) ∙ e ∙ here),
  )

  checking-Moves :
      (s : System c) (i : ℕ) (owner : Bytes) (more : List Bytes)
      → s.pc i ≡ checking owner more
      → Moves s i
  checking-Moves s i owner more e = elim (Option-cases (refusal (c.find_one owner s.world) more)) [
    | inl fine ↦
        Moves-update s i (checking owner more) (adding owner more) (goes c s i (adding owner more))
          e refl (λ d. cc) (accept i owner more e fine)
    | inr (x, refused) ↦
        Moves-update s i (checking owner more) (leaving owner) (goes c s i (leaving owner)) e refl
          (λ d. cc) (refuse i owner more x e refused)
  ]

  leaving-Moves :
      (s : System c) (i : ℕ) (owner : Bytes) → Inv c s → s.pc i ≡ leaving owner → Moves s i
  leaving-Moves s i owner inv e = elim (Option-cases (unlock owner s.locks)) [
    | inl stuck ↦ elim (unlock_held owner s.locks (inv.busy i owner (ap holds e)) stuck) [ ]
    | inr (l, freed) ↦
        Moves-update s i (leaving owner) idle (record (goes c s i idle) { locks = l }) e refl
          (λ d. cc) (leave i owner l e freed)
  ]

  -- One that has the mutex can go on.
  holds-Moves :
      (s : System c) (i : ℕ) (p : Pc) (k : Bytes)
      → Inv c s
      → s.pc i ≡ p
      → holds p ≡ some k
      → Moves s i
  holds-Moves s i idle k inv e h = elim (nothing h) [ ]
    where
      nothing : ◌≡◌ {A = Option Bytes} none (some k) → ⊥
      nothing x = cc
  holds-Moves s i (waiting owner more) k inv e h = elim (nothing h) [ ]
    where
      nothing : ◌≡◌ {A = Option Bytes} none (some k) → ⊥
      nothing x = cc
  holds-Moves s i (checking owner more) k inv e h = checking-Moves s i owner more e
  holds-Moves s i (adding owner more) k inv e h =
      Moves-update s i (adding owner more) (leaving owner)
        (record (goes c s i (leaving owner)) { world = (add_items c owner more s.world).1 }) e refl
        (λ d. cc) (add i owner more e)
  holds-Moves s i (leaving owner) k inv e h = leaving-Moves s i owner inv e

  -- One that waits for it takes it, or another has it.
  waiting-Moves :
      (s : System c) (i : ℕ) (owner : Bytes) (more : List Bytes) (r : Locking)
      → lock owner s.locks ≡ r
      → Inv c s
      → s.pc i ≡ waiting owner more
      → Moves s i ⊎ ((j : ℕ) × (holds (s.pc j) ≡ some owner) × Moves s j)
  waiting-Moves s i owner more (locked l) got inv e = inl (
      Moves-update s i (waiting owner more) (checking owner more)
        (record (goes c s i (checking owner more)) { locks = l }) e refl (λ d. cc)
        (take i owner more l e got))
  waiting-Moves s i owner more (blocked l) got inv e =
      let (j, has) = inv.owned owner (lock_waits owner s.locks l got) in
      inr (j, has, holds-Moves s j (s.pc j) owner inv refl has)

  -- The goroutine can go on, or waits for a mutex whose holder can.
  abbrev pub Able : System c → ℕ → Type 0
  Able s i =
      Moves s i
      ⊎ ((owner : Bytes) × (more : List Bytes) × (s.pc i ≡ waiting owner more)
          × (j : ℕ) × (holds (s.pc j) ≡ some owner)
          × Moves s j)

  Inv-Able : (s : System c) (i : ℕ) (p : Pc) → Inv c s → s.pc i ≡ p → p ≢ idle → Able s i
  Inv-Able s i idle inv e busy = elim (busy refl) [ ]
  Inv-Able s i (waiting owner more) inv e busy =
      elim (waiting-Moves s i owner more (lock owner s.locks) refl inv e) [
        | inl here ↦ inl here
        | inr (j, has, there) ↦ inr (owner, more, e, j, has, there)
      ]
  Inv-Able s i (checking owner more) inv e busy =
      inl (holds-Moves s i (checking owner more) owner inv e refl)
  Inv-Able s i (adding owner more) inv e busy =
      inl (holds-Moves s i (adding owner more) owner inv e refl)
  Inv-Able s i (leaving owner) inv e busy = inl (holds-Moves s i (leaving owner) owner inv e refl)

  module _ (documented : Documented c) where
    -- If the database does what it documents, and at first no owner has more items than a limit
    -- below 2 ^ 63, then in every state that any number of goroutines in Reserve reach, between
    -- calls of Release, of Create and of Set with limits that are no lower, every goroutine that
    -- is in Reserve has a step of its own to make, or waits for a mutex that a goroutine has
    -- which can make one.
    pub Reach-Able :
        (w : W) (s : System c) (i : ℕ) → Kept c w → Reach c w s → s.pc i ≢ idle → Able s i
    Reach-Able w s i kept r busy =
        Inv-Able s i (s.pc i) (Reach-Inv c documented w s kept r) refl busy
