-- ===== src/Quota/Clients/Steps.antt =====
-- What each step keeps.
use docker_stuff.Base.{
  ℕ, if◌then◌else◌, ◌≡◌, ◌≢◌, refl, sym, ap, ◌∙◌, Bool, true, false, List, [], ◌∷◌, Option, none,
  some, Bytes, arith, some_inj, Bool-cases, inl, inr,
}
use mathlib.Core.Path.{subst}
use docker_stuff.Text.Split.{eq_bytes, eq_bytes_iff}
use docker_stuff.TagStore.Tables.{find}
use docker_stuff.Quota.{
  Usage, Collection, QuotaError, Outcome, refusal, add_items, MultiLocker, locked, lock, unlock,
}
use docker_stuff.Quota.Documented.{Documented}
use docker_stuff.Quota.Reserve.{refusal-fits}
use docker_stuff.Quota.Clients.{
  update, Pc, idle, waiting, checking, adding, leaving, holds, System, goes, Kept, Room, Roomier,
  Room-Roomier, Inv,
}
use docker_stuff.Quota.Clients.Worlds.{add-Kept, add-Room}
use docker_stuff.Quota.Clients.Locks.{update_here, lock_taken, unlock_freed, update-cases}

module _ {W : Type 0} (c : Collection W) where
  pub start-Inv : (w : W) → Kept c w → Inv c (record { world = w; locks = []; pc = λ i. idle })
  unfolding find
  start-Inv w kept = record {
    kept = kept;
    room = λ i. tt;
    busy = λ i k h. elim (nothing h) [ ];
    alone = λ i j k h h'. elim (nothing h) [ ];
    owned = λ k h. elim (vacant h) [ ];
  }
    where
      nothing : {k : Bytes} → ◌≡◌ {A = Option Bytes} none (some k) → ⊥
      nothing e = cc

      vacant : ◌≡◌ {A = Option Bool} none (some true) → ⊥
      vacant e = cc

  -- What a goroutine has after one of them has moved, with the same mutex as before.
  holds-same :
      (f : ℕ → Pc) (i : ℕ) (p : Pc)
      → holds p ≡ holds (f i)
      → (j : ℕ) → holds (update f i p j) ≡ holds (f j)
  holds-same f i p same j = elim (update-cases f i p j) [
    | inl (e, new) ↦ ap holds new ∙ same ∙ ap (λ (x : ℕ). holds (f x)) e
    | inr (ne, old) ↦ ap holds old
  ]

  update-Room :
      (w : W) (f : ℕ → Pc) (i : ℕ) (p : Pc)
      → Room c w p
      → ((j : ℕ) → i ≢ j → Room c w (f j))
      → (j : ℕ) → Room c w (update f i p j)
  update-Room w f i p here others j = elim (update-cases f i p j) [
    | inl (e, new) ↦ subst (Room c w) (sym new) here
    | inr (ne, old) ↦ subst (Room c w) (sym old) (others j ne)
  ]

  pub moved :
      (s : System c) (i : ℕ) (p : Pc)
      → holds p ≡ holds (s.pc i)
      → Room c s.world p
      → Inv c s
      → Inv c (goes c s i p)
  moved s i p same here inv = record {
    kept = inv.kept;
    room = update-Room s.world s.pc i p here (λ j ne. inv.room j);
    busy = λ j k h. inv.busy j k (sym (holds-same s.pc i p same j) ∙ h);
    alone = λ j j' k h h'.
        inv.alone j j' k (sym (holds-same s.pc i p same j) ∙ h)
          (sym (holds-same s.pc i p same j') ∙ h');
    owned = λ k h. let (j, has) = inv.owned k h in (j, holds-same s.pc i p same j ∙ has);
  }

  pub loosened_world :
      (s : System c) (w : W)
      → Kept c w × Roomier c s.world w
      → Inv c s
      → Inv c (record s { world = w })
  loosened_world s w (kept, more) inv = record {
    kept = kept;
    room = λ i. Room-Roomier c s.world w (s.pc i) more (inv.room i);
    busy = inv.busy;
    alone = inv.alone;
    owned = inv.owned;
  }

  -- What `Reserve` does not refuse, there is room for.
  pub accepted-Room :
      (owner : Bytes) (more : List Bytes) (w : W) (o : Option Usage)
      → c.find_one owner w ≡ o
      → Kept c w
      → refusal o more ≡ none
      → Room c w (adding owner more)
  accepted-Room owner more w none there kept e = elim (no e) [ ]
    where
      no : {x : QuotaError} → ◌≡◌ {A = Outcome} (some x) none → ⊥
      no e = cc
  accepted-Room owner [] w (some u) there kept e = (u, there, omega (arith, (kept owner u there).0))
  accepted-Room owner (i ∷ more) w (some u) there kept e =
      let (fits, small) = kept owner u there in
      (u, there, refusal-fits u i more small (omega (arith, fits, small)) e)

  pub taken :
      (s : System c) (i : ℕ) (owner : Bytes) (more : List Bytes) (l : MultiLocker)
      → s.pc i ≡ waiting owner more
      → lock owner s.locks ≡ locked l
      → Inv c s
      → Inv c (record (goes c s i (checking owner more)) { locks = l })
  taken s i owner more l before e inv =
      let (free, after) = lock_taken owner s.locks l e in
      let apart : (j : ℕ) → holds (s.pc j) ≢ some owner = λ j h. free (inv.busy j owner h) in
      record {
        kept = inv.kept;
        room = update-Room s.world s.pc i (checking owner more) tt (λ j ne. inv.room j);
        busy = λ j k h. elim (update-cases s.pc i (checking owner more) j) [
          | inl (ij, new) ↦
              let same : owner ≡ k = some_inj (ap holds (sym new) ∙ h) in
              after k ∙ rw ((eq_bytes_iff owner k).1 same) refl
          | inr (ne, old) ↦
              after k ∙ true_either (eq_bytes owner k) (inv.busy j k (ap holds (sym old) ∙ h))
        ];
        alone = λ j j' k h h'. elim (update-cases s.pc i (checking owner more) j) [
          | inl (ij, new) ↦ elim (update-cases s.pc i (checking owner more) j') [
            | inl (ij', new') ↦ sym ij ∙ ij'
            | inr (ne', old') ↦
                elim (apart j' (ap holds (sym old') ∙ h' ∙ sym h ∙ ap holds new)) [ ]
          ]
          | inr (ne, old) ↦ elim (update-cases s.pc i (checking owner more) j') [
            | inl (ij', new') ↦ elim (apart j (ap holds (sym old) ∙ h ∙ sym h' ∙ ap holds new')) [ ]
            | inr (ne', old') ↦ inv.alone j j' k (ap holds (sym old) ∙ h) (ap holds (sym old') ∙ h')
          ]
        ];
        owned = λ k h. elim (Bool-cases (eq_bytes owner k)) [
          | inl same ↦ (
            i,
            ap holds (update_here s.pc i (checking owner more))
                ∙ ap some ((eq_bytes_iff owner k).0 same),
          )
          | inr other ↦
              let (j, has) = inv.owned k (rw other at (sym (after k) ∙ h)) in
              elim (update-cases s.pc i (checking owner more) j) [
                | inl (ij, new) ↦
                    elim (nothing
                      (ap holds (sym before) ∙ ap (λ (x : ℕ). holds (s.pc x)) ij ∙ has)) [ ]
                | inr (ne, old) ↦ (j, ap holds old ∙ has)
              ]
        ];
      }
    where
      nothing : {k : Bytes} → ◌≡◌ {A = Option Bytes} none (some k) → ⊥
      nothing e = cc

      true_either :
          {o : Option Bool} (b : Bool) → o ≡ some true → (if b then some true else o) ≡ some true
      true_either true e = refl
      true_either false e = e

  pub left :
      (s : System c) (i : ℕ) (owner : Bytes) (l : MultiLocker)
      → s.pc i ≡ leaving owner
      → unlock owner s.locks ≡ some l
      → Inv c s
      → Inv c (record (goes c s i idle) { locks = l })
  left s i owner l at_end e inv =
      let after = unlock_freed owner s.locks l e in
      let old : (j : ℕ) (k : Bytes)
          → holds (update s.pc i idle j) ≡ some k
          → (i ≢ j) × (holds (s.pc j) ≡ some k) =
        λ j k h. elim (update-cases s.pc i idle j) [
          | inl (ij, new) ↦ elim (nothing (ap holds (sym new) ∙ h)) [ ]
          | inr (ne, old) ↦ (ne, ap holds (sym old) ∙ h)
        ] in
      record {
        kept = inv.kept;
        room = update-Room s.world s.pc i idle tt (λ j ne. inv.room j);
        busy = λ j k h.
            let (ne, before) = old j k h in
            elim (Bool-cases (eq_bytes owner k)) [
              | inl same ↦
                  elim (ne (
                    inv.alone i j k (ap holds at_end ∙ ap some ((eq_bytes_iff owner k).0 same))
                      before)) [ ]
              | inr other ↦ after k ∙ rw other (inv.busy j k before)
            ];
        alone = λ j j' k h h'. inv.alone j j' k (old j k h).1 (old j' k h').1;
        owned = λ k h. elim (Bool-cases (eq_bytes owner k)) [
          | inl same ↦ elim (freed (rw same at (sym (after k) ∙ h))) [ ]
          | inr other ↦
              let (j, has) = inv.owned k (rw other at (sym (after k) ∙ h)) in
              elim (update-cases s.pc i idle j) [
                | inl (ij, new) ↦
                    let same =
                      some_inj (sym (ap holds at_end) ∙ ap (λ (x : ℕ). holds (s.pc x)) ij ∙ has) in
                    elim (unlike other ((eq_bytes_iff owner k).1 same)) [ ]
                | inr (ne, kept) ↦ (j, ap holds kept ∙ has)
              ]
        ];
      }
    where
      freed : ◌≡◌ {A = Option Bool} (some false) (some true) → ⊥
      freed e = cc

      unlike : {b : Bool} → b ≡ false → b ≡ true → ⊥
      unlike e d = cc

      nothing : {k : Bytes} → ◌≡◌ {A = Option Bytes} none (some k) → ⊥
      nothing e = cc

  pub added :
      (documented : Documented c) (s : System c) (i : ℕ) (owner : Bytes) (more : List Bytes)
      → s.pc i ≡ adding owner more
      → Inv c s
      → Inv c (record (goes c s i (leaving owner)) { world = (add_items c owner more s.world).1 })
  added documented s i owner more here inv =
      let same : some owner ≡ holds (s.pc i) = ap holds (sym here) in
      let w = (add_items c owner more s.world).1 in
      record {
        kept =
            add-Kept c documented owner more s.world inv.kept
              (subst (Room c s.world) here (inv.room i));
        room = update-Room w s.pc i (leaving owner) tt (λ j ne.
            add-Room c documented owner more s.world (s.pc j)
              (λ h. ne (inv.alone i j owner (sym same) h)) (inv.room j));
        busy = λ j k h. inv.busy j k (sym (holds-same s.pc i (leaving owner) same j) ∙ h);
        alone = λ j j' k h h'.
            inv.alone j j' k (sym (holds-same s.pc i (leaving owner) same j) ∙ h)
              (sym (holds-same s.pc i (leaving owner) same j') ∙ h');
        owned = λ k h.
            let (j, has) = inv.owned k h in (j, holds-same s.pc i (leaving owner) same j ∙ has);
      }
