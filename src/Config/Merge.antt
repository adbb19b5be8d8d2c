-- ===== src/Config/Merge.antt =====
-- The environment of a merged configuration.
pub mod Ports
use docker_stuff.Base.{
  ℕ, zero, suc, ◌==◌, if◌then◌else◌, ◌≡◌, ◌⊎◌, refl, sym, ap, ◌∙◌, Bool, true, false, not, ◌&&◌,
  ◌||◌, List, [], ◌∷◌, ◌++◌, Option, none, some, Bytes, arith, Bool-cases, inl, inr,
}
use docker_stuff.Text.Split.{eq_bytes, eq_bytes_iff}
use docker_stuff.Network.NatSpec.{Nat, NatResult, ok, err, parse_nat}
use docker_stuff.Config.{
  env_key, has_env, add_env, merge_env, same_backend, has_backend, add_ports, merge_ports,
}

-- The first variable with a key.
unfoldable pub find_env : Bytes → List Bytes → Option Bytes
find_env k [] = none
find_env k (e ∷ env) = if eq_bytes k (env_key e) then some e else find_env k env

abbrev pub or_else {ℓ} : {A : Type ℓ} → Option A → Option A → Option A
or_else none o = o
or_else (some a) o = some a

or_else-none {ℓ} : {A : Type ℓ} (o : Option A) → or_else o none ≡ o
or_else-none none = refl
or_else-none (some a) = refl

or_else_assoc {ℓ} :
    {A : Type ℓ} (o p q : Option A) → or_else (or_else o p) q ≡ or_else o (or_else p q)
or_else_assoc none p q = refl
or_else_assoc (some a) p q = refl

pub find_env-append :
    (k : Bytes) (a b : List Bytes) → find_env k (a ++ b) ≡ or_else (find_env k a) (find_env k b)
unfolding find_env
find_env-append k [] b = refl
find_env-append k (e ∷ a) b = ground (arith, find_env-append k a b)

-- A key that is there has a first variable.
has_env_some :
    (k : Bytes) (env : List Bytes) (o : Option Bytes)
    → has_env k env ≡ true
    → or_else (find_env k env) o ≡ find_env k env
unfolding find_env has_env
has_env_some k [] o h = cc
has_env_some k (e ∷ env) o h = ground (arith, has_env_some k env o)

find_env-add_env :
    (k : Bytes) (image user : List Bytes)
    → find_env k (add_env image user) ≡ or_else (find_env k user) (find_env k image)
unfolding add_env find_env
find_env-add_env k [] user = sym (or_else-none (find_env k user))
find_env-add_env k (e ∷ image) user =
    find_env-add_env k image (if has_env (env_key e) user then user else user ++ e ∷ [])
    ∙ one (Bool-cases (has_env (env_key e) user)) (Bool-cases (eq_bytes k (env_key e)))
  where
    one :
        (has_env (env_key e) user ≡ true) ⊎ (has_env (env_key e) user ≡ false)
        → (eq_bytes k (env_key e) ≡ true) ⊎ (eq_bytes k (env_key e) ≡ false)
        → or_else
            (find_env k (if has_env (env_key e) user then user else user ++ e ∷ []))
            (find_env k image)
          ≡ or_else (find_env k user) (if eq_bytes k (env_key e) then some e else find_env k image)
    one (inl h) (inl c) =
        rw (h, c)
          (has_env_some k user (find_env k image) (rw ((eq_bytes_iff k (env_key e)).0 c) h)
            ∙ sym (has_env_some k user (some e) (rw ((eq_bytes_iff k (env_key e)).0 c) h)))
    one (inl h) (inr c) = rw (h, c)
    one (inr h) (inl c) =
        rw (h, find_env-append k user (e ∷ []), c)
          (or_else_assoc (find_env k user) (some e) (find_env k image))
    one (inr h) (inr c) =
        rw (h, find_env-append k user (e ∷ []), c)
          (or_else_assoc (find_env k user) none (find_env k image))

pub find_env-merge_env :
    (k : Bytes) (user image : List Bytes)
    → find_env k (merge_env user image) ≡ or_else (find_env k user) (find_env k image)
unfolding merge_env find_env
find_env-merge_env k [] image = refl
find_env-merge_env k (e ∷ user) image = find_env-add_env k image (e ∷ user)

-- How many variables have a key.
unfoldable pub count_env : Bytes → List Bytes → ℕ
count_env k [] = 0
count_env k (e ∷ env) = if eq_bytes k (env_key e) then suc (count_env k env) else count_env k env

-- The number of the user's variables, or else one if the image has any.
abbrev pub merged_number : ℕ → ℕ → ℕ
merged_number user image = if user == 0 then (if image == 0 then 0 else 1) else user

-- Without a variable of the user, the image's are taken as they are.
abbrev pub merged_count : Bytes → List Bytes → List Bytes → ℕ
merged_count k [] image = count_env k image
merged_count k (e ∷ user) image = merged_number (count_env k (e ∷ user)) (count_env k image)

count_env-append :
    (k e : Bytes) (user : List Bytes)
    → count_env k (user ++ e ∷ [])
      ≡ (if eq_bytes k (env_key e) then suc (count_env k user) else count_env k user)
unfolding count_env
count_env-append k e [] = refl
count_env-append k e (x ∷ user) = ground (arith, count_env-append k e user)

has_env-count_env : (k : Bytes) (user : List Bytes) → has_env k user ≡ not (count_env k user == 0)
unfolding has_env count_env
has_env-count_env k [] = ground arith
has_env-count_env k (e ∷ user) = ground (arith, has_env-count_env k user)

no_image_number : (n : ℕ) → n ≡ merged_number n 0
no_image_number n = ground arith

count_env-step :
    (k e : Bytes) (image user : List Bytes)
    → merged_number
        (count_env k (if has_env (env_key e) user then user else user ++ e ∷ []))
        (count_env k image)
      ≡ merged_number (count_env k user) (count_env k (e ∷ image))
unfolding count_env
count_env-step k e image user = ground (
  arith,
  count_env-append k e user,
  has_env-count_env (env_key e) user,
  eq_bytes_iff k (env_key e),
)

count_env-add_env :
    (k : Bytes) (image user : List Bytes)
    → count_env k (add_env image user) ≡ merged_number (count_env k user) (count_env k image)
unfolding add_env count_env
count_env-add_env k [] user = no_image_number (count_env k user)
count_env-add_env k (e ∷ image) user =
    count_env-add_env k image (if has_env (env_key e) user then user else user ++ e ∷ [])
    ∙ count_env-step k e image user

count_env-merge_env :
    (k : Bytes) (user image : List Bytes)
    → count_env k (merge_env user image) ≡ merged_count k user image
unfolding merge_env
count_env-merge_env k [] image = refl
count_env-merge_env k (e ∷ user) image = count_env-add_env k image (e ∷ user)

-- The first variable with a key in the merged environment is the user's if the user has one, and
-- else the image's. If the user has any variables, the merged environment has as many with a key
-- as the user has, or else one if the image has any; if the user has none, as many as the image.
pub merge_env_lem :
    (k : Bytes) (user image : List Bytes)
    → (find_env k (merge_env user image) ≡ or_else (find_env k user) (find_env k image))
      × (count_env k (merge_env user image) ≡ merged_count k user image)
merge_env_lem k user image = (find_env-merge_env k user image, count_env-merge_env k user image)
