-- ===== src/App/Teams/Access.antt =====
-- What `Grant` and `Revoke` do to a sorted list of teams.
use docker_stuff.Base.{
  ℕ, zero, suc, ◌≤◌, ◌≡◌, refl, sym, ap, ◌∙◌, Bool, true, false, not, List, [], ◌∷◌, ◌++◌, Option,
  some, Bytes, length, All, arith, Bool-cases, inl, inr,
}
use mathlib.Core.Path.{subst}
use docker_stuff.Text.Split.{eq_bytes, eq_bytes_iff, has_text}
use docker_stuff.TagStore.Tables.{less}
use docker_stuff.App.Teams.{search, at_least, stands_at, find}
use docker_stuff.App.Teams.Order.{less_irreflexive, not_less_trans, not_less-eq}
use docker_stuff.App.Teams.Search.{Starts, Monotone, search-Starts}

abbrev pub Sorted : List Bytes → Type 0
Sorted [] = Unit {0}
Sorted (t ∷ teams) = All (λ u. less u t ≡ false) teams × Sorted teams

true_is_not_false : {b : Bool} → b ≡ true → b ≡ false → ⊥
true_is_not_false e d = cc

-- Whoever stands behind a team that is at least the name is, too.
at_least-All :
    (name t : Bytes) (teams : List Bytes) (k : ℕ)
    → less t name ≡ false
    → All (λ u. less u t ≡ false) teams
    → at_least name teams k ≡ true
at_least-All name t [] k e h = refl
at_least-All name t (u ∷ teams) zero e h = ap not (not_less_trans name t u e h.0)
at_least-All name t (u ∷ teams) (suc k) e h = at_least-All name t teams k e h.1

at_least-Monotone :
    (name : Bytes) (teams : List Bytes) → Sorted teams → Monotone (at_least name teams)
at_least-Monotone name [] s h k le e = refl
at_least-Monotone name (t ∷ teams) s zero zero le e = e
at_least-Monotone name (t ∷ teams) s zero (suc k) le e =
    at_least-All name t teams k (ground (arith, e)) s.0
at_least-Monotone name (t ∷ teams) s (suc h) zero le e = ground (arith, le)
at_least-Monotone name (t ∷ teams) s (suc h) (suc k) le e =
    at_least-Monotone name teams s.1 h k (omega (arith, le)) e

-- The teams before the name, and those from it on.
record Cut (name : Bytes) (teams : List Bytes) (pos : ℕ) : Type 0 where
  front : List Bytes
  back : List Bytes
  parts : teams ≡ front ++ back
  at : length front ≡ pos
  lower : All (λ t. less t name ≡ true) front
  higher : All (λ t. less t name ≡ false) back

all_above :
    (name : Bytes) (teams : List Bytes)
    → ((k : ℕ) → 0 ≤ k → at_least name teams k ≡ true)
    → All (λ t. less t name ≡ false) teams
all_above name [] h = tt
all_above name (t ∷ teams) h =
    (ground (arith, h 0 (omega arith)), all_above name teams (λ k ge. h (suc k) (omega arith)))

cut :
    (name : Bytes) (teams : List Bytes) (pos : ℕ)
    → pos ≤ length teams
    → Starts (at_least name teams) pos
    → Cut name teams pos
cut name [] pos le starts = record {
  front = [];
  back = [];
  parts = refl;
  at = omega (arith, le);
  lower = tt;
  higher = tt;
}
cut name (t ∷ teams) zero le starts = record {
  front = [];
  back = t ∷ teams;
  parts = refl;
  at = refl;
  lower = tt;
  higher = all_above name (t ∷ teams) starts.1;
}
cut name (t ∷ teams) (suc pos) le starts =
    let rest = cut name teams pos (omega (arith, le)) (
      (λ k lt. starts.0 (suc k) (omega (arith, lt))),
      (λ k ge. starts.1 (suc k) (omega (arith, ge))),
    ) in
    record {
      front = t ∷ rest.front;
      back = rest.back;
      parts = ap (λ (l : List Bytes). t ∷ l) rest.parts;
      at = ap suc rest.at;
      lower = (ground (arith, starts.0 0 (omega arith)), rest.lower);
      higher = rest.higher;
    }

lower_differs : (name t : Bytes) → less t name ≡ true → eq_bytes t name ≡ false
lower_differs name t lt = elim (Bool-cases (eq_bytes t name)) [
  | inl same ↦
      elim (true_is_not_false
        (ap (λ (s : Bytes). less s name) (sym ((eq_bytes_iff t name).0 same)) ∙ lt)
        (less_irreflexive name)) [ ]
  | inr other ↦ other
]

-- The team at the head of those that are no lower.
abbrev pub head_is : Bytes → List Bytes → Bool
head_is name [] = false
head_is name (t ∷ teams) = eq_bytes t name

has_text-front :
    (name : Bytes) (front back : List Bytes)
    → All (λ t. less t name ≡ true) front
    → has_text name (front ++ back) ≡ has_text name back
unfolding has_text
has_text-front name [] back h = refl
has_text-front name (t ∷ front) back h =
    rw (lower_differs name t h.0) (has_text-front name front back h.1)

has_text-above :
    (name b : Bytes) (teams : List Bytes)
    → less b name ≡ false
    → eq_bytes b name ≡ false
    → All (λ u. less u b ≡ false) teams
    → has_text name teams ≡ false
unfolding has_text
has_text-above name b [] ge ne h = refl
has_text-above name b (u ∷ teams) ge ne h = elim (Bool-cases (eq_bytes u name)) [
  | inl same ↦
      let at = (eq_bytes_iff u name).0 same in
      let le = ap (λ (s : Bytes). less s b) (sym at) ∙ h.0 in
      elim (true_is_not_false ((eq_bytes_iff b name).1 (not_less-eq b name ge le)) ne) [ ]
  | inr other ↦ rw other (has_text-above name b teams ge ne h.1)
]

has_text-back :
    (name : Bytes) (back : List Bytes)
    → All (λ t. less t name ≡ false) back
    → Sorted back
    → has_text name back ≡ head_is name back
unfolding has_text
has_text-back name [] h s = refl
has_text-back name (b ∷ back) h s = elim (Bool-cases (eq_bytes b name)) [
  | inl same ↦ rw same refl
  | inr other ↦ rw other (has_text-above name b back h.0 other s.0)
]

Sorted-back : (front back : List Bytes) → Sorted (front ++ back) → Sorted back
Sorted-back [] back s = s
Sorted-back (t ∷ front) back s = Sorted-back front back s.1

stands_at-front :
    (name : Bytes) (front back : List Bytes)
    → stands_at name (front ++ back) (length front) ≡ head_is name back
stands_at-front name [] [] = refl
stands_at-front name [] (b ∷ back) = refl
stands_at-front name (t ∷ front) back = stands_at-front name front back

past_end :
    (name : Bytes) (teams : List Bytes) (k : ℕ) → length teams ≤ k → at_least name teams k ≡ true
past_end name [] k le = refl
past_end name (t ∷ teams) zero le = ground (arith, le)
past_end name (t ∷ teams) (suc k) le = past_end name teams k (omega (arith, le))

-- What `find` says of sorted teams: they fall into lower ones and others, the position is that of
-- the first of the others, and the flag is whether the team is there.
pub record Found (name : Bytes) (teams : List Bytes) : Type 0 where
  pub front : List Bytes
  pub back : List Bytes
  pub parts : teams ≡ front ++ back
  pub lower : All (λ t. less t name ≡ true) front
  pub higher : All (λ t. less t name ≡ false) back
  pub there : has_text name teams ≡ head_is name back
  pub answer : find name teams ≡ some (length front, head_is name back)

find-answer :
    (name : Bytes) (teams : List Bytes) (pos : ℕ)
    → search (suc (length teams)) (at_least name teams) 0 (length teams) ≡ some pos
    → find name teams ≡ some (pos, stands_at name teams pos)
unfolding find
find-answer name teams pos e = rw (e, find) refl

answered :
    (name : Bytes) (teams front back : List Bytes) (pos : ℕ)
    → teams ≡ front ++ back
    → length front ≡ pos
    → ◌≡◌ {A = Option (ℕ × Bool)}
        (some (pos, stands_at name teams pos))
        (some (length front, head_is name back))
answered name teams front back pos parts at =
    ap (λ (n : ℕ). some (n, stands_at name teams n)) (sym at)
    ∙ ap (λ (b : Bool). some (length front, b))
        (ap (λ (l : List Bytes). stands_at name l (length front)) parts
          ∙ stands_at-front name front back)

pub find_lem : (name : Bytes) (teams : List Bytes) → Sorted teams → Found name teams
find_lem name teams s =
    let (pos, e, le, starts) =
      search-Starts (suc (length teams)) (at_least name teams) 0 (length teams)
        (at_least-Monotone name teams s) (omega arith) (omega arith) (λ k lt. ground (arith, lt))
        (past_end name teams) in
    let c = cut name teams pos le starts in
    record {
      front = c.front;
      back = c.back;
      parts = c.parts;
      lower = c.lower;
      higher = c.higher;
      there =
          ap (has_text name) c.parts
          ∙ has_text-front name c.front c.back c.lower
          ∙ has_text-back name c.back c.higher
              (Sorted-back c.front c.back (subst Sorted c.parts s));
      answer = find-answer name teams pos e ∙ answered name teams c.front c.back pos c.parts c.at;
    }
