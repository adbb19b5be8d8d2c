-- ===== src/App/Teams/Changes.antt =====
-- The lists that `Grant` and `Revoke` leave.
use docker_stuff.Base.{
  ℕ, suc, ◌≡◌, ◌⊎◌, refl, sym, ap, ◌∙◌, Bool, true, false, List, [], ◌∷◌, ◌++◌, some, Bytes, length,
  take, drop, All, All-append, arith, Bool-cases, inl, inr,
}
use mathlib.Core.Path.{subst}
use docker_stuff.Text.Split.{eq_bytes_iff, has_text}
use docker_stuff.TagStore.Tables.{less, insert_name}
use docker_stuff.App.Teams.{
  find, insert_at, granted, granted_or_panic, already_access, no_access, revoked, grant, revoke,
  set_teams,
}
use docker_stuff.App.Teams.Order.{less_irreflexive, less_asym, not_less_trans}
use docker_stuff.App.Teams.Access.{Sorted, find_lem, head_is}
use docker_stuff.App.Teams.Insertion.{fill, copies, insert_at-exact}

All-front : (Q : Bytes → Type 0) (front back : List Bytes) → All Q (front ++ back) → All Q front
All-front Q [] back h = tt
All-front Q (t ∷ front) back h = (h.0, All-front Q front back h.1)

All-back : (Q : Bytes → Type 0) (front back : List Bytes) → All Q (front ++ back) → All Q back
All-back Q [] back h = h
All-back Q (t ∷ front) back h = All-back Q front back h.1

All-fill : (Q : Bytes → Type 0) (t : Bytes) (teams : List Bytes) → Q t → All Q (fill t teams)
All-fill Q t [] q = tt
All-fill Q t (u ∷ teams) q = (q, All-fill Q t teams q)

All-copies : (Q : Bytes → Type 0) (teams : List Bytes) → All Q teams → All Q (copies teams)
All-copies Q [] h = tt
All-copies Q (t ∷ teams) h = (h.0, All-fill Q t teams h.0)

fill-Sorted : (t : Bytes) (teams : List Bytes) → Sorted (fill t teams)
fill-Sorted t [] = tt
fill-Sorted t (u ∷ teams) =
    (All-fill (λ u. less u t ≡ false) t teams (less_irreflexive t), fill-Sorted t teams)

copies-Sorted : (teams : List Bytes) → Sorted (copies teams)
copies-Sorted [] = tt
copies-Sorted (t ∷ teams) =
    (All-fill (λ u. less u t ≡ false) t teams (less_irreflexive t), fill-Sorted t teams)

granted-Sorted :
    (name : Bytes) (front back : List Bytes)
    → All (λ t. less t name ≡ true) front
    → All (λ t. less t name ≡ false) back
    → Sorted (front ++ back)
    → Sorted (front ++ name ∷ copies back)
granted-Sorted name [] back lower higher s =
    (All-copies (λ u. less u name ≡ false) back higher, copies-Sorted back)
granted-Sorted name (t ∷ front) back lower higher s = (
  All-append (λ u. less u t ≡ false) front (name ∷ copies back)
      (
        less_asym t name lower.0,
        All-copies (λ u. less u t ≡ false) back (All-back (λ u. less u t ≡ false) front back s.0),
      )
      (All-front (λ u. less u t ≡ false) front back s.0),
  granted-Sorted name front back lower.1 higher s.1,
)

grant-found :
    (name : Bytes) (teams : List Bytes) (pos : ℕ)
    → find name teams ≡ some (pos, true)
    → grant name teams ≡ already_access
unfolding grant
grant-found name teams pos e = rw (e, grant) refl

grant_lacking :
    (name : Bytes) (teams front back : List Bytes)
    → teams ≡ front ++ back
    → find name teams ≡ some (length front, false)
    → grant name teams ≡ granted (front ++ name ∷ copies back)
unfolding grant
grant_lacking name teams front back parts e =
    rw (e, grant)
      (ap (λ (l : List Bytes). granted_or_panic (insert_at (length front) name l)) parts
        ∙ ap granted_or_panic (insert_at-exact front back name))

-- On sorted teams, Grant of a team that is there is refused; of another one, it puts the team
-- where it belongs and writes the first of the teams behind it over all the others behind it,
-- and the teams stay sorted.
pub grant_lem :
    (name : Bytes) (teams : List Bytes)
    → Sorted teams
    → ((has_text name teams ≡ true) × (grant name teams ≡ already_access))
      ⊎ ((has_text name teams ≡ false)
          × (front : List Bytes) × (back : List Bytes) × (teams ≡ front ++ back)
          × All (λ t. less t name ≡ true) front
          × All (λ t. less t name ≡ false) back
          × (grant name teams ≡ granted (front ++ name ∷ copies back))
          × Sorted (front ++ name ∷ copies back))
grant_lem name teams s =
    let f = find_lem name teams s in
    elim (Bool-cases (has_text name teams)) [
      | inl has ↦ inl (
        has,
        grant-found name teams (length f.front)
            (f.answer ∙ ap (λ (b : Bool). some (length f.front, b)) (sym f.there ∙ has)),
      )
      | inr lacks ↦ inr (
        lacks,
        f.front,
        f.back,
        f.parts,
        f.lower,
        f.higher,
        grant_lacking name teams f.front f.back f.parts
            (f.answer ∙ ap (λ (b : Bool). some (length f.front, b)) (sym f.there ∙ lacks)),
        granted-Sorted name f.front f.back f.lower f.higher (subst Sorted f.parts s),
      )
    ]

head_is-split :
    (name : Bytes) (back : List Bytes)
    → head_is name back ≡ true
    → (rest : List Bytes) × (back ≡ name ∷ rest)
head_is-split name [] e = ground (arith, e)
head_is-split name (b ∷ back) e = (back, ap (λ (t : Bytes). t ∷ back) ((eq_bytes_iff b name).0 e))

taken_out :
    (front rest : List Bytes) (name : Bytes)
    → take (length front) (front ++ name ∷ rest) ++ drop (suc (length front)) (front ++ name ∷ rest)
      ≡ front ++ rest
taken_out [] rest name = refl
taken_out (t ∷ front) rest name = ap (λ (l : List Bytes). t ∷ l) (taken_out front rest name)

revoke-found :
    (name : Bytes) (teams : List Bytes) (pos : ℕ)
    → find name teams ≡ some (pos, true)
    → revoke name teams ≡ revoked (take pos teams ++ drop (suc pos) teams)
unfolding revoke
revoke-found name teams pos e = rw (e, revoke) refl

revoke_lacking :
    (name : Bytes) (teams : List Bytes) (pos : ℕ)
    → find name teams ≡ some (pos, false)
    → revoke name teams ≡ no_access
unfolding revoke
revoke_lacking name teams pos e = rw (e, revoke) refl

-- On sorted teams, Revoke of a team that is not there is refused; of one that is there, it takes
-- out that team, the first of its name, and leaves the others.
pub revoke_lem :
    (name : Bytes) (teams : List Bytes)
    → Sorted teams
    → ((has_text name teams ≡ false) × (revoke name teams ≡ no_access))
      ⊎ ((has_text name teams ≡ true)
          × (front : List Bytes) × (back : List Bytes) × (teams ≡ front ++ name ∷ back)
          × All (λ t. less t name ≡ true) front
          × (revoke name teams ≡ revoked (front ++ back)))
revoke_lem name teams s =
    let f = find_lem name teams s in
    elim (Bool-cases (has_text name teams)) [
      | inl has ↦
          let (rest, e) = head_is-split name f.back (sym f.there ∙ has) in
          let parts = f.parts ∙ ap (λ (l : List Bytes). f.front ++ l) e in
          inr (
            has,
            f.front,
            rest,
            parts,
            f.lower,
            revoke-found name teams (length f.front)
                  (f.answer ∙ ap (λ (b : Bool). some (length f.front, b)) (sym f.there ∙ has))
                ∙ ap
                    (λ (l : List Bytes).
                      revoked (take (length f.front) l ++ drop (suc (length f.front)) l))
                    parts
                ∙ ap revoked (taken_out f.front rest name),
          )
      | inr lacks ↦ inl (
        lacks,
        revoke_lacking name teams (length f.front)
            (f.answer ∙ ap (λ (b : Bool). some (length f.front, b)) (sym f.there ∙ lacks)),
      )
    ]

insert_name-All :
    (Q : Bytes → Type 0) (name : Bytes) (names : List Bytes)
    → Q name
    → All Q names
    → All Q (insert_name name names)
unfolding insert_name
insert_name-All Q name [] q h = (q, tt)
insert_name-All Q name (n ∷ names) q h = elim (Bool-cases (less name n)) [
  | inl lt ↦ rw lt (q, h)
  | inr ge ↦ rw ge (h.0, insert_name-All Q name names q h.1)
]

All-behind :
    (name n : Bytes) (names : List Bytes)
    → less n name ≡ false
    → All (λ u. less u n ≡ false) names
    → All (λ u. less u name ≡ false) names
All-behind name n [] ge h = tt
All-behind name n (u ∷ names) ge h =
    (not_less_trans name n u ge h.0, All-behind name n names ge h.1)

insert_name-Sorted :
    (name : Bytes) (names : List Bytes) → Sorted names → Sorted (insert_name name names)
unfolding insert_name
insert_name-Sorted name [] s = (tt, tt)
insert_name-Sorted name (n ∷ names) s = elim (Bool-cases (less name n)) [
  | inl lt ↦ let ge = less_asym name n lt in rw lt ((ge, All-behind name n names ge s.0), s)
  | inr ge ↦
      rw ge (
        insert_name-All (λ u. less u n ≡ false) name names ge s.0,
        insert_name-Sorted name names s.1,
      )
]

-- What `SetTeams` leaves is sorted.
pub set_teams-Sorted : (names : List Bytes) → Sorted (set_teams names)
unfolding set_teams
set_teams-Sorted [] = tt
set_teams-Sorted (name ∷ names) = insert_name-Sorted name (set_teams names) (set_teams-Sorted names)
