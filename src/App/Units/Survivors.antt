-- ===== src/App/Units/Survivors.antt =====
-- `RemoveUnits` leaves the units that it could not remove, and those behind.
use docker_stuff.Base.{
  ℕ, zero, suc, ◌+◌, ◌<◌, ltb, ◌==◌, ==_refl, ==_iff, if◌then◌else◌, ◌≡◌, refl, sym, ap, ◌∙◌, Bool,
  true, false, List, [], ◌∷◌, some, Bytes, length, take, arith,
}
use mathlib.Core.Path.{subst}
use docker_stuff.App.{AppUnit, App}
use docker_stuff.Quota.{Collection, release}
use docker_stuff.App.Units.{
  Platform, Removal, removed, remove_each, remove_units, save_removed, quota_items, ended,
  remove_failed,
}
use docker_stuff.App.Units.Indices.{
  Rising, without, remove_indices_lem, Rising-later, without_skip, without_shorter, zero_plus,
}

module _ {W : Type 0} (p : Platform W) where
  -- The units that stay when the first `n` are removed one after the other, and the world.
  abbrev pub survivors : Bytes → ℕ → List AppUnit → W → List AppUnit × W
  survivors name zero units w = (units, w)
  survivors name (suc n) [] w = ([], w)
  survivors name (suc n) (u ∷ units) w =
      let (ok, w1) = p.remove_unit name u.name w in
      let (rest, w2) = survivors name n units (p.unbind_unit name u w1) in
      (if ok then rest else u ∷ rest, w2)

  abbrev Tells : ℕ → List AppUnit → List ℕ × W → List AppUnit × W → Type 0
  Tells i units (indices, w) (kept, w') =
      Rising i indices (i + length units) × (kept ≡ without i indices units) × (w ≡ w')

  step-Tells :
      (i : ℕ) (u : AppUnit) (units : List AppUnit) (ok : Bool) (t : List ℕ × W)
      (k : List AppUnit × W)
      → Tells (suc i) units t k
      → Tells i (u ∷ units) (if ok then i ∷ t.0 else t.0, t.1) (if ok then k.0 else u ∷ k.0, k.1)
  step-Tells i u units true (indices, w) (kept, w') (rising, e, same) = (
    (omega arith, omega arith, subst (Rising (suc i) indices) (plus_suc i (length units)) rising),
    e ∙ rw (==_refl i) refl,
    same,
  )
    where
      plus_suc : (i n : ℕ) → suc i + n ≡ i + suc n
      plus_suc i n = omega arith
  step-Tells i u units false (indices, w) (kept, w') (rising, e, same) = (
    Rising-later (suc i) i indices (i + suc (length units)) (omega arith)
        (subst (Rising (suc i) indices) (plus_suc i (length units)) rising),
    ap (λ (l : List AppUnit). u ∷ l) e
        ∙ sym (without_skip i (suc i) (suc i + length units) indices u units (omega arith) rising),
    same,
  )
    where
      plus_suc : (i n : ℕ) → suc i + n ≡ i + suc n
      plus_suc i n = omega arith

  remove_each-Tells :
      (name : Bytes) (n i : ℕ) (units : List AppUnit) (w : W)
      → Tells i units (remove_each p name n i units w) (survivors name n units w)
  unfolding remove_each
  remove_each-Tells name zero i units w = (tt, refl, refl)
  remove_each-Tells name (suc n) i [] w = (tt, refl, refl)
  remove_each-Tells name (suc n) i (u ∷ units) w =
      let (ok, w1) = p.remove_unit name u.name w in
      let w2 = p.unbind_unit name u w1 in
      step-Tells i u units ok (remove_each p name n (suc i) units w2) (survivors name n units w2)
        (remove_each-Tells name n (suc i) units w2)

  module _ (c : Collection W) (sort : List AppUnit → List AppUnit) where
    -- What `RemoveUnits` gives for the units that stay, after the loop.
    abbrev pub Left : ℕ → App → List AppUnit × W → Removal W
    Left n app (kept, w) =
        let (ok, w1) = p.update_units app.name kept w in
        if length kept == length app.units
        then removed (some remove_failed) app w
        else removed (ended p ok) (record app { units = kept })
            (release c app.name (quota_items (take n app.units)) w1).1

    save_removed-Left :
        (n : ℕ) (indices : List ℕ) (app : App) (kept : List AppUnit) (w : W)
        → Rising 0 indices (length app.units)
        → kept ≡ without 0 indices app.units
        → p.connected w ≡ true
        → save_removed p c sort n indices app w ≡ Left n app (kept, w)
    save_removed-Left n [] app kept w rising e online =
        let same : (length kept == length app.units) ≡ true =
          (==_iff (length kept) (length app.units)).1 (ap length e) in
        rw same refl
    save_removed-Left n (k ∷ ks) app kept w rising e online =
        let less : length kept < length app.units =
          subst (λ (l : List AppUnit). length l < length app.units) (sym e)
            (without_shorter 0 k ks app.units
              (subst (Rising 0 (k ∷ ks)) (zero_plus (length app.units)) rising)) in
        let fewer : (length kept == length app.units) ≡ false = ground (arith, less) in
        rw (online, fewer, remove_indices_lem (k ∷ ks) app.units rising ∙ ap some (sym e)) refl

    -- RemoveUnits of a positive number below that of the units, while the database answers,
    -- fails if none of the first units in order could be removed; otherwise the app keeps
    -- exactly those that could not be removed and the ones behind, in order, with the quota
    -- items of all the units that were tried released.
    pub remove_units-Left :
        (n : ℕ) (app : App) (w : W)
        → 0 < n
        → n < length app.units
        → p.connected (survivors app.name n (sort app.units) w).1 ≡ true
        → remove_units p c sort n app w
          ≡ Left n (record app { units = sort app.units }) (survivors app.name n (sort app.units) w)
    unfolding remove_units
    remove_units-Left n app w some_asked fewer online =
        let sorted = record app { units = sort app.units } in
        let t = remove_each p app.name n 0 sorted.units w in
        let k = survivors app.name n sorted.units w in
        let (rising, kept, same) = remove_each-Tells app.name n 0 sorted.units w in
        let not_none : (n == 0) ≡ false = ground (arith, some_asked) in
        let not_all : (length app.units == n) ≡ false = ground (arith, fewer) in
        let enough : ltb (length app.units) n ≡ false = ground (arith, fewer) in
        rw (not_none, not_all, enough)
          (save_removed-Left n t.0 sorted k.0 t.1
              (subst (Rising 0 t.0) (sym (zero_plus (length sorted.units))) rising) kept
              (ap p.connected same ∙ online)
            ∙ ap (λ (v : W). Left n sorted (k.0, v)) same)
