-- ===== src/Quota/Examples.antt =====
-- A collection in memory, and two goroutines that reserve for one user.
use docker_stuff.Base.{
  ℕ, ◌≤◌, ◌<◌, ◌^◌, ◌≡◌, ◌≢◌, refl, sym, ap, ◌∙◌, if◌then◌else◌, Bool, true, false, List, [], ◌∷◌,
  Option, none, some, Bytes, length, arith, Bool-cases, some_inj, All, inl, inr,
}
use mathlib.Core.Path.{subst}
use docker_stuff.Text.Split.{eq_bytes, eq_bytes_iff, has_text}
use docker_stuff.TagStore.Tables.{find, put, erase}
use docker_stuff.TagStore.Lookups.{find-put, find-erase}
use docker_stuff.Quota.{
  Usage, DbResult, stored, duplicate, not_found, Collection, lock, unlock, reserve, release,
}
use docker_stuff.Quota.Documented.{
  Documented, Changed, Effect, add_each, pull_each, on_usage, unless_there,
}
use docker_stuff.Quota.Clients.{
  idle, waiting, checking, adding, holds, System, goes, call, take, accept, Kept, Reach, start,
  next,
}
use docker_stuff.Quota.Undo.{release-reserve}
use docker_stuff.Quota.Clients.Kept.{Reach-Kept}
use docker_stuff.Quota.Clients.Progress.{Able, Reach-Able}

abbrev World : Type 0
World = List (Bytes × Usage)

-- A change of one document that is there.
abbrev changed : Bytes → (Usage → Usage) → World → Option Usage → DbResult × World
changed owner f w none = (not_found, w)
changed owner f w (some u) = (stored, put owner (f u) w)

abbrev inserted_in : Bytes → ℕ → World → Option Usage → DbResult × World
inserted_in owner limit w none = (stored, put owner (record { items = []; limit = limit }) w)
inserted_in owner limit w (some u) = (duplicate, w)

abbrev removed_from : Bytes → World → Option Usage → DbResult × World
removed_from owner w none = (not_found, w)
removed_from owner w (some u) = (stored, erase owner w)

abbrev pub memory : Collection World
memory = record {
  connected = λ w. true;
  insert = λ owner limit w. inserted_in owner limit w (find owner w);
  remove = λ owner w. removed_from owner w (find owner w);
  find_one = λ owner w. find owner w;
  add_to_set = λ owner more w.
      changed owner (λ u. record u { items = add_each more u.items }) w (find owner w);
  pull_all = λ owner gone w.
      changed owner (λ u. record u { items = pull_each gone u.items }) w (find owner w);
  set_limit = λ owner value w. changed owner (λ u. record u { limit = value }) w (find owner w);
}

put-Changed :
    (owner : Bytes) (f : Option Usage → Option Usage) (u : Usage) (w : World)
    → f (find owner w) ≡ some u
    → Changed memory owner f w (put owner u w)
put-Changed owner f u w e k = elim (Bool-cases (eq_bytes owner k)) [
  | inl same ↦
      let here = ap find_in ((eq_bytes_iff owner k).0 same) in
      find-put k owner u w ∙ rw same (sym e ∙ ap f here)
  | inr other ↦ find-put k owner u w ∙ rw other refl
]
  where
    find_in : Bytes → Option Usage
    find_in j = find j w

changed-Effect :
    (owner : Bytes) (f : Usage → Usage) (w : World) (o : Option Usage)
    → find owner w ≡ o
    → Effect memory owner (on_usage f) w (changed owner f w o)
changed-Effect owner f w none e = λ k. refl
changed-Effect owner f w (some u) e = put-Changed owner (on_usage f) (f u) w (ap (on_usage f) e)

inserted_in-Effect :
    (owner : Bytes) (limit : ℕ) (w : World) (o : Option Usage)
    → find owner w ≡ o
    → Effect memory owner (unless_there limit) w (inserted_in owner limit w o)
inserted_in-Effect owner limit w none e =
    put-Changed owner (unless_there limit) (record { items = []; limit = limit }) w
      (ap (unless_there limit) e)
inserted_in-Effect owner limit w (some u) e = λ k. refl

removed_from-Effect :
    (owner : Bytes) (w : World) (o : Option Usage)
    → find owner w ≡ o
    → Effect memory owner (λ u. none) w (removed_from owner w o)
removed_from-Effect owner w none e = λ k. refl
removed_from-Effect owner w (some u) e = λ k. find-erase k owner w

pub memory-Documented : Documented memory
memory-Documented = record {
  insert_effect = λ owner limit w. inserted_in-Effect owner limit w (find owner w) refl;
  remove_effect = λ owner w. removed_from-Effect owner w (find owner w) refl;
  add_effect = λ owner more w.
      changed-Effect owner (λ u. record u { items = add_each more u.items }) w (find owner w) refl;
  pull_effect = λ owner gone w.
      changed-Effect owner (λ u. record u { items = pull_each gone u.items }) w (find owner w) refl;
  set_effect =
      λ owner value w. changed-Effect owner (λ u. record u { limit = value }) w (find owner w) refl;
}

abbrev user : Bytes
user = b'u' ∷ []

abbrev first_app : List Bytes
first_app = (b'x' ∷ []) ∷ []

abbrev second_app : List Bytes
second_app = (b'y' ∷ []) ∷ []

-- One user, with room for one app.
abbrev before : World
before = (user, record { items = []; limit = 1 }) ∷ []

Within : Usage → Type 0
Within u = (length u.items ≤ u.limit) × (u.limit < 2 ^ 63)

one-Within :
    (b : Bool) (u : Usage)
    → (if b then some (record { items = []; limit = 1 }) else none) ≡ some u
    → Within u
unfolding Within
one-Within true u e = subst Within (some_inj e) (omega arith, omega arith)
one-Within false u e = elim (nothing e) [ ]
  where
    nothing : ◌≡◌ {A = Option Usage} none (some u) → ⊥
    nothing x = cc

before-Kept : Kept memory before
unfolding find Within
before-Kept k u there = one-Within (eq_bytes user k) u there

-- The first goroutine is about to add its app, and the second one waits.
abbrev s1 : System memory
s1 = goes memory (record { world = before; locks = []; pc = λ i. idle }) 1 (waiting user first_app)

abbrev s2 : System memory
s2 = record (goes memory s1 1 (checking user first_app)) { locks = (user, true) ∷ [] }

abbrev s3 : System memory
s3 = goes memory s2 1 (adding user first_app)

abbrev s4 : System memory
s4 = goes memory s3 2 (waiting user second_app)

s4-Reach : Reach memory before s4
unfolding find put lock eq_bytes
s4-Reach =
    next {s = s3}
      (next {s = s2}
        (next {s = s1} (next start (call 1 user first_app refl))
          (take 1 user first_app ((user, true) ∷ []) refl refl))
        (accept 1 user first_app refl refl))
      (call 2 user second_app refl)

Reach-Kept_example :
    Kept memory before
    × ((i j : ℕ) (k : Bytes) → holds (s4.pc i) ≡ some k → holds (s4.pc j) ≡ some k → i ≡ j)
    × ((i : ℕ) (k : Bytes) → holds (s4.pc i) ≡ some k → unlock k s4.locks ≢ none)
Reach-Kept_example = Reach-Kept memory memory-Documented before s4 before-Kept s4-Reach

Reach-Able_example : Able memory s4 2
Reach-Able_example =
    Reach-Able memory memory-Documented before s4 2 before-Kept s4-Reach (λ e. apart e)
  where
    apart : waiting user second_app ≡ idle → ⊥
    apart e = cc

-- The user reserves the first app and gives it back.
abbrev reserved : World
reserved = (user, record { items = first_app; limit = 1 }) ∷ []

before_empty :
    (u : Usage) → find user before ≡ some u → All (λ t. has_text t first_app ≡ false) u.items
unfolding find eq_bytes
before_empty u e =
    subst (λ (v : Usage). All (λ t. has_text t first_app ≡ false) v.items) (some_inj e) tt

reserves : reserve memory user first_app before ≡ (none, reserved)
unfolding reserve find put eq_bytes add_each has_text
reserves = refl

gives_back : memory.pull_all user first_app reserved ≡ (stored, before)
unfolding find put eq_bytes pull_each has_text
gives_back = refl

release-reserve_example :
    (release memory user first_app reserved ≡ (none, before))
    × ((k : Bytes) → find k before ≡ find k before)
release-reserve_example =
    release-reserve memory memory-Documented user first_app before reserved before before_empty refl
      reserves refl gives_back
