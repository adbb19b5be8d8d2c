-- ===== src/Config/Merge/Ports.antt =====
-- The ports of a merged configuration, and where `MergeConfig` panics on them.
use docker_stuff.Base.{
  if◌then◌else◌, ◌≡◌, ◌≢◌, refl, sym, ap, ◌∙◌, Bool, true, false, not, ◌&&◌, ◌||◌, List, [], ◌∷◌,
  ◌++◌, Option, none, some, Bytes, arith,
}
use docker_stuff.Network.NatSpec.{Nat, NatResult, ok, err, parse_nat}
use docker_stuff.Config.{same_backend, has_backend, add_ports, merge_ports}

abbrev pub is_valid : Bytes → Bool
is_valid spec = elim (parse_nat spec) [ ok n ↦ true | err e ↦ false ]

abbrev pub all_valid : List Bytes → Bool
all_valid [] = true
all_valid (s ∷ specs) = is_valid s && all_valid specs

abbrev pub is_none {ℓ} : {A : Type ℓ} → Option A → Bool
is_none none = true
is_none (some a) = false

same_backend_none :
    (m n : NatResult Nat)
    → is_none (same_backend m n)
      ≡ not ((elim m [ ok a ↦ true | err e ↦ false ]) && (elim n [ ok a ↦ true | err e ↦ false ]))
unfolding same_backend
same_backend_none (ok a) (ok b) = refl
same_backend_none (ok a) (err e) = refl
same_backend_none (err e) n = refl

both_none :
    (o r : Option Bool)
    → is_none (elim o [
      | none ↦ none
      | some here ↦ elim r [ none ↦ none | some found ↦ some (here || found) ]
    ])
      ≡ (is_none o || is_none r)
both_none none r = refl
both_none (some h) none = refl
both_none (some h) (some f) = refl

last_test : (a b : Bool) → (not (a && b) || false) ≡ not (a && (b && true))
last_test a b = ground arith

more_tests : (a b c : Bool) → (not (a && b) || not (a && c)) ≡ not (a && (b && c))
more_tests a b c = ground arith

-- With a spec to compare with, the inner loop panics if one of them all is not valid.
has_backend_none :
    (spec u : Bytes) (user : List Bytes)
    → is_none (has_backend spec (u ∷ user)) ≡ not (is_valid spec && all_valid (u ∷ user))
unfolding has_backend
has_backend_none spec u [] =
    both_none (same_backend (parse_nat spec) (parse_nat u)) (some false)
    ∙ ap (λ b. b || false) (same_backend_none (parse_nat spec) (parse_nat u))
    ∙ last_test (is_valid spec) (is_valid u)
has_backend_none spec u (v ∷ user) =
    both_none (same_backend (parse_nat spec) (parse_nat u)) (has_backend spec (v ∷ user))
    ∙ ap (λ b. b || is_none (has_backend spec (v ∷ user)))
        (same_backend_none (parse_nat spec) (parse_nat u))
    ∙ ap (λ b. not (is_valid spec && is_valid u) || b) (has_backend_none spec v user)
    ∙ more_tests (is_valid spec) (is_valid u) (all_valid (v ∷ user))

all_valid-append :
    (a : List Bytes) (spec : Bytes) → all_valid (a ++ spec ∷ []) ≡ (all_valid a && is_valid spec)
all_valid-append [] spec = ground arith
all_valid-append (s ∷ a) spec = ground (arith, all_valid-append a spec)

refused : (a v r : Bool) → true ≡ not (v && a) → true ≡ not (a && (v && r))
refused a v r h = ground arith

accepted : (a v : Bool) → false ≡ not (v && a) → (a ≡ true) × (v ≡ true)
accepted a v h = ground arith

with_found :
    (found : Bool) (spec u : Bytes) (user : List Bytes)
    → all_valid (u ∷ user) ≡ true
    → is_valid spec ≡ true
    → (rest : List Bytes) × ((if found then u ∷ user else u ∷ (user ++ spec ∷ [])) ≡ u ∷ rest)
      × (all_valid (u ∷ rest) ≡ true)
with_found true spec u user a v = (user, refl, a)
with_found false spec u user a v =
    (user ++ spec ∷ [], refl, all_valid-append (u ∷ user) spec ∙ rw (a, v) refl)

-- The outer loop, after one round of it and given what its rest does.
add_ports_step :
    (image : List Bytes) (spec u : Bytes) (user : List Bytes)
    → ((rest : List Bytes)
        → all_valid (u ∷ rest) ≡ true
        → is_none (add_ports image (u ∷ rest)) ≡ not (all_valid image))
    → (o : Option Bool) → is_none o ≡ not (is_valid spec && all_valid (u ∷ user))
    → is_none (elim o [
      | none ↦ none
      | some found ↦ add_ports image (if found then u ∷ user else u ∷ (user ++ spec ∷ []))
    ])
      ≡ not (all_valid (u ∷ user) && all_valid (spec ∷ image))
add_ports_step image spec u user later none h =
    refused (all_valid (u ∷ user)) (is_valid spec) (all_valid image) h
add_ports_step image spec u user later (some found) h =
    let (a, v) = accepted (all_valid (u ∷ user)) (is_valid spec) h in
    let (rest, same, fine) = with_found found spec u user a v in rw (same, a, v) (later rest fine)

add_ports_none :
    (image : List Bytes) (spec u : Bytes) (user : List Bytes)
    → is_none (add_ports (spec ∷ image) (u ∷ user))
      ≡ not (all_valid (u ∷ user) && all_valid (spec ∷ image))
unfolding add_ports
add_ports_none [] spec u user =
    add_ports_step [] spec u user (λ rest fine. refl) (has_backend spec (u ∷ user))
      (has_backend_none spec u user)
add_ports_none (s ∷ image) spec u user =
    add_ports_step (s ∷ image) spec u user
      (λ rest fine. add_ports_none image s u rest ∙ rw fine refl) (has_backend spec (u ∷ user))
      (has_backend_none spec u user)

-- Merging the ports of an image that has some into those of a user who has some panics exactly
-- if one of all these specs is not valid.
merge_ports_none :
    (spec u : Bytes) (image user : List Bytes)
    → is_none (merge_ports (u ∷ user) (spec ∷ image))
      ≡ not (all_valid (u ∷ user) && all_valid (spec ∷ image))
unfolding merge_ports
merge_ports_none spec u image user = add_ports_none image spec u user

some_refused : (a b : Bool) → true ≡ not (a && b) → (a && b) ≡ false
some_refused a b h = ground arith

-- A merge of ports panics only where both sides have some and one of them all is not valid.
pub ports_panic :
    (user image : List Bytes)
    → merge_ports user image ≡ none
    → (user ≢ []) × (image ≢ []) × ((all_valid user && all_valid image) ≡ false)
unfolding merge_ports add_ports
ports_panic [] image e = cc
ports_panic (u ∷ user) [] e = cc
ports_panic (u ∷ user) (spec ∷ image) e = (
  (λ nothing. cc),
  (λ nothing. cc),
  some_refused (all_valid (u ∷ user)) (all_valid (spec ∷ image))
      (sym (ap is_none e) ∙ merge_ports_none spec u image user),
)
