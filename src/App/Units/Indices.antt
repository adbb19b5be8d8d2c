-- ===== src/App/Units/Indices.antt =====
-- Removing units by ascending indices leaves the units at the other ones.
use docker_stuff.Base.{
  ℕ, zero, suc, ◌+◌, ◌-◌, ◌≤◌, ◌<◌, ltb, ◌==◌, if◌then◌else◌, ◌≡◌, refl, sym, ap, ◌∙◌, true, false,
  ◌||◌, List, [], ◌∷◌, ◌++◌, some, length, take, drop, arith, Bool-cases, inl, inr,
}
use mathlib.Core.Path.{subst}
use docker_stuff.App.{AppUnit}
use docker_stuff.App.Units.{is_front, take_out, take_each, remove_indices}

-- Ascending from a number on, and below another.
abbrev pub Rising : ℕ → List ℕ → ℕ → Type 0
Rising low [] n = Unit {0}
Rising low (k ∷ ks) n = (low ≤ k) × (k < n) × Rising (suc k) ks n

-- The units whose index, counted from a number on, is not listed.
abbrev pub without : ℕ → List ℕ → List AppUnit → List AppUnit
without i [] units = units
without i (k ∷ ks) [] = []
without i (k ∷ ks) (u ∷ units) =
    let hit = without (suc i) ks units in
    let miss = u ∷ without (suc i) (k ∷ ks) units in if i == k then hit else miss

abbrev delete_at : ℕ → List AppUnit → List AppUnit
delete_at n [] = []
delete_at zero (u ∷ units) = units
delete_at (suc n) (u ∷ units) = u ∷ delete_at n units

delete_middle :
    (n : ℕ) (units : List AppUnit)
    → n < length units
    → take n units ++ drop (suc n) units ≡ delete_at n units
delete_middle n [] lt = ground (arith, lt)
delete_middle zero (u ∷ units) lt = refl
delete_middle (suc n) (u ∷ units) lt =
    ap (λ (l : List AppUnit). u ∷ l) (delete_middle n units (omega (arith, lt)))

delete_last :
    (n : ℕ) (units : List AppUnit) → length units ≡ suc n → take n units ≡ delete_at n units
delete_last n [] e = ground (arith, e)
delete_last zero (u ∷ []) e = refl
delete_last zero (u ∷ v ∷ units) e = ground (arith, e)
delete_last (suc n) (u ∷ units) e =
    ap (λ (l : List AppUnit). u ∷ l) (delete_last n units (omega (arith, e)))

length-delete_at :
    (n : ℕ) (units : List AppUnit)
    → n < length units
    → suc (length (delete_at n units)) ≡ length units
length-delete_at n [] lt = ground (arith, lt)
length-delete_at zero (u ∷ units) lt = refl
length-delete_at (suc n) (u ∷ units) lt = ap suc (length-delete_at n units (omega (arith, lt)))

suc_plus : (n : ℕ) → suc n ≡ n + 1
suc_plus n = omega arith

one_less : (n l : ℕ) → l ≡ suc n → n ≡ l - 1
one_less n l e = omega (arith, e)

take_out_lem :
    (i k : ℕ) (units : List AppUnit)
    → i ≤ k
    → k < i + length units
    → take_out i k units ≡ some (delete_at (k - i) units)
unfolding take_out
take_out_lem i k units le lt =
    let inside : (ltb k i || length units == 0) ≡ false = ground (arith, le, lt) in
    elim (Bool-cases (ltb (k - i + 1) (length units))) [
      | inl more ↦
          rw (inside, more)
            (ap some (
              subst (λ (n : ℕ). take (k - i) units ++ drop n units ≡ delete_at (k - i) units)
                (suc_plus (k - i)) (delete_middle (k - i) units (omega (arith, le, lt)))))
      | inr last ↦
          let e : length units ≡ suc (k - i) = ground (arith, last, le, lt) in
          rw (inside, last)
            (ap some (
              subst (λ (n : ℕ). take n units ≡ delete_at (k - i) units)
                (one_less (k - i) (length units) e) (delete_last (k - i) units e)))
    ]

-- An index that is not listed
pub without_skip :
    (i low n : ℕ) (ks : List ℕ) (u : AppUnit) (units : List AppUnit)
    → i < low
    → Rising low ks n
    → without i ks (u ∷ units) ≡ u ∷ without (suc i) ks units
without_skip i low n [] u units lt r = refl
without_skip i low n (k ∷ ks) u units lt r =
    let apart : (i == k) ≡ false = ground (arith, lt, r.0) in rw apart refl

without-delete_at :
    (p i : ℕ) (ks : List ℕ) (units : List AppUnit)
    → p < length units
    → Rising (suc (i + p)) ks (i + length units)
    → without (suc i) ks (delete_at p units) ≡ without i ((i + p) ∷ ks) units
without-delete_at p i ks [] lt r = ground (arith, lt)
without-delete_at zero i ks (u ∷ units) lt r =
    let same : (i == i + 0) ≡ true = ground arith in rw same refl
without-delete_at (suc p) i ks (u ∷ units) lt r =
    let apart : (i == i + suc p) ≡ false = ground arith in
    let bound : i + suc (length units) ≡ suc i + length units = omega arith in
    let start : i + suc p ≡ suc i + p = omega arith in
    let r' =
      subst (λ (n : ℕ). Rising (suc n) ks (suc i + length units)) start
        (subst (λ (n : ℕ). Rising (suc (i + suc p)) ks n) bound r) in
    without_skip (suc i) (suc (i + suc p)) (i + suc (length units)) ks u (delete_at p units)
      (omega arith) r
    ∙ ap (λ (l : List AppUnit). u ∷ l)
        (without-delete_at p (suc i) ks units (omega (arith, lt)) r'
          ∙ ap (λ (n : ℕ). without (suc i) (n ∷ ks) units) (sym start))
    ∙ rw apart refl

pub Rising-later :
    (low low' : ℕ) (ks : List ℕ) (n : ℕ) → low' ≤ low → Rising low ks n → Rising low' ks n
Rising-later low low' [] n le r = tt
Rising-later low low' (k ∷ ks) n le r = (omega (arith, le, r.0), r.1, r.2)

take_each_lem :
    (i : ℕ) (ks : List ℕ) (units : List AppUnit)
    → Rising i ks (i + length units)
    → take_each i ks units ≡ some (without i ks units)
unfolding take_each
take_each_lem i [] units r = refl
take_each_lem i (k ∷ ks) units r =
    let p = k - i in
    let inside : p < length units = omega (arith, r.0, r.1) in
    let at : i + p ≡ k = omega (arith, r.0) in
    let shorter = length-delete_at p units inside in
    let bound : i + length units ≡ suc i + length (delete_at p units) = omega (arith, shorter) in
    let later = take_each_lem (suc i) ks (delete_at p units) (
      subst (λ (n : ℕ). Rising (suc i) ks n) bound
        (Rising-later (suc k) (suc i) ks (i + length units) (omega (arith, r.0)) r.2)) in
    rw (take_out_lem i k units r.0 r.1, take_each)
      (later
        ∙ ap some (
            without-delete_at p i ks units inside
              (subst (λ (n : ℕ). Rising (suc n) ks (i + length units)) (sym at) r.2)
            ∙ ap (λ (n : ℕ). without i (n ∷ ks) units) at))

front_drop :
    (i : ℕ) (ks : List ℕ) (units : List AppUnit)
    → is_front i ks ≡ true
    → drop (length ks) units ≡ without i ks units
unfolding is_front
front_drop i [] units e = refl
front_drop i (k ∷ ks) [] e = refl
front_drop i (k ∷ ks) (u ∷ units) e = elim (Bool-cases (i == k)) [
  | inl same ↦ rw same (front_drop (suc i) ks units (rw same at e))
  | inr apart ↦ elim (no_way (rw apart at e)) [ ]
]
  where
    no_way : false ≡ true → ⊥
    no_way e = cc

pub zero_plus : (n : ℕ) → n ≡ 0 + n
zero_plus n = omega arith

-- Ascending indices in range leave the units at the others.
pub remove_indices_lem :
    (indices : List ℕ) (units : List AppUnit)
    → Rising 0 indices (length units)
    → remove_indices indices units ≡ some (without 0 indices units)
unfolding remove_indices
remove_indices_lem indices units r = elim (Bool-cases (is_front 0 indices)) [
  | inl front ↦ rw front (ap some (front_drop 0 indices units front))
  | inr gaps ↦
      rw gaps
        (take_each_lem 0 indices units (subst (Rising 0 indices) (zero_plus (length units)) r))
]

without_within :
    (i : ℕ) (ks : List ℕ) (units : List AppUnit) → length (without i ks units) ≤ length units
without_within i [] units = omega arith
without_within i (k ∷ ks) [] = omega arith
without_within i (k ∷ ks) (u ∷ units) = elim (Bool-cases (i == k)) [
  | inl same ↦ rw same (omega (arith, without_within (suc i) ks units))
  | inr apart ↦ rw apart (omega (arith, without_within (suc i) (k ∷ ks) units))
]

at_or_past : (i k : ℕ) → i ≤ k → (i == k) ≡ false → suc i ≤ k
at_or_past i k le apart = ground (arith, le, apart)

plus_suc : (i n : ℕ) → i + suc n ≡ suc i + n
plus_suc i n = omega arith

pub without_shorter :
    (i k : ℕ) (ks : List ℕ) (units : List AppUnit)
    → Rising i (k ∷ ks) (i + length units)
    → length (without i (k ∷ ks) units) < length units
without_shorter i k ks [] r = omega (arith, r.0, r.1)
without_shorter i k ks (u ∷ units) r = elim (Bool-cases (i == k)) [
  | inl same ↦ rw same (omega (arith, without_within (suc i) ks units))
  | inr apart ↦
      let later : Rising (suc i) (k ∷ ks) (i + suc (length units)) =
        (at_or_past i k r.0 apart, r.1, r.2) in
      rw apart (
        omega (
          arith,
          without_shorter (suc i) k ks units
              (subst (Rising (suc i) (k ∷ ks)) (plus_suc i (length units)) later),
        ))
]
