-- ===== src/Builder/Env/Variables.antt =====
-- The variables after `CmdEnv`, and that their values are always there.
use docker_stuff.Base.{
  ℕ, ◌==◌, if◌then◌else◌, ◌≡◌, ◌≢◌, refl, sym, ap, ◌∙◌, true, List, [], ◌∷◌, ◌++◌, Option, none,
  some, Bytes, codes, arith, All, Bool-cases, Option-cases, inl, inr,
}
use mathlib.Core.Path.{subst}
use docker_stuff.Text.Split.{
  cut, split, onto_first, eq_bytes, eq_bytes_iff, Lacks, cut_at, contains_byte,
}
use docker_stuff.Text.Trim.{trim}
use docker_stuff.Config.{env_key}
use docker_stuff.Config.Merge.{find_env}
use docker_stuff.Builder.{BuildFile, Outside, Result, ok, err, panicked}
use docker_stuff.Builder.Create.Extends.{HasValue, Grows, Calm}
use docker_stuff.Builder.Commit.Frame.{commit-Keeps}
use docker_stuff.Builder.Env.{
  find_env_key, from_dollar, value_of_key, replace_match, replace_matches, put_env,
  replace_env_matches, set_variable, put_variable, cmd_env, blanks,
}

first_part :
    (c : ℕ) (parts : List Bytes) {t : Bytes}
    → (elim parts [ [] ↦ [] | p ∷ ps ↦ p ]) ≡ t
    → (elim (onto_first c parts) [ [] ↦ [] | p ∷ ps ↦ p ]) ≡ c ∷ t
unfolding onto_first
first_part c [] e = ap (λ (s : Bytes). c ∷ s) e
first_part c (p ∷ ps) e = ap (λ (s : Bytes). c ∷ s) e

-- The key by `Split` is the key by `SplitN`.
env_key-cut : (s : Bytes) → env_key s ≡ (cut b'=' s).0
unfolding env_key split cut onto_first
env_key-cut [] = refl
env_key-cut (c ∷ s) = elim (Bool-cases (c == b'=')) [
  | inl e ↦ rw (e, env_key) refl
  | inr ne ↦ rw (ne, env_key) (first_part c (split b'=' s) (env_key-cut s))
]

put_env-cons :
    (key variable e : Bytes) (env : List Bytes)
    → put_env key variable (e ∷ env)
      ≡ (if eq_bytes key (cut b'=' e).0 then variable ∷ env else e ∷ put_env key variable env)
unfolding put_env find_env_key
put_env-cons key variable e env = ground arith

find_env-put_env :
    (key variable k : Bytes) (env : List Bytes)
    → env_key variable ≡ key
    → find_env k (put_env key variable env)
      ≡ (if eq_bytes key k then some variable else find_env k env)
unfolding put_env find_env_key find_env
find_env-put_env key variable k [] e = ground (arith, eq_bytes_iff k key, eq_bytes_iff key k)
find_env-put_env key variable k (x ∷ env) e = rw (put_env-cons key variable x env) (
    ground (
      arith,
      env_key-cut x,
      eq_bytes_iff k key,
      eq_bytes_iff key k,
      eq_bytes_iff k (env_key x),
      eq_bytes_iff key (env_key x),
      find_env-put_env key variable k env,
    ))

pub put_env-HasValue :
    (key variable : Bytes) (env : List Bytes)
    → HasValue variable
    → All HasValue env
    → All HasValue (put_env key variable env)
unfolding put_env
put_env-HasValue key variable [] h all = (h, tt)
put_env-HasValue key variable (x ∷ env) h all = elim (Bool-cases (eq_bytes key (cut b'=' x).0)) [
  | inl e ↦ rw (put_env-cons key variable x env, e) (h, all.1)
  | inr ne ↦
      rw (put_env-cons key variable x env, ne) (all.0, put_env-HasValue key variable env h all.1)
]

pub cut-HasValue : (key value : Bytes) → HasValue (key ++ b'=' ∷ value)
unfolding cut
cut-HasValue [] value e = ground arith
cut-HasValue (c ∷ key) value e = ground (arith, cut-HasValue key value)

value_of_key-ne-none :
    (key : Bytes) (env : List Bytes) → All HasValue env → value_of_key key env ≢ none
unfolding value_of_key
value_of_key-ne-none key [] h e = cc
value_of_key-ne-none key (x ∷ env) h e = elim (Option-cases (cut b'=' x).1) [
  | inl missing ↦ h.0 missing
  | inr (v, there) ↦ ground (arith, value_of_key-ne-none key env h.1)
]

from_dollar-ne-none : (s : Bytes) → contains_byte b'$' s ≡ true → from_dollar s ≢ none
unfolding from_dollar contains_byte
from_dollar-ne-none [] h e = cc
from_dollar-ne-none (c ∷ s) h e = ground (arith, from_dollar-ne-none s)

replace_match-ne-none :
    (env : List Bytes) (value text : Bytes)
    → All HasValue env
    → contains_byte b'$' text ≡ true
    → replace_match env value text ≢ none
unfolding replace_match
replace_match-ne-none env value text h d e = elim (Option-cases (from_dollar text)) [
  | inl missing ↦ from_dollar-ne-none text d missing
  | inr (m, there) ↦ elim (Option-cases (value_of_key (trim (codes "${}") m) env)) [
    | inl failed ↦ value_of_key-ne-none (trim (codes "${}") m) env h failed
    | inr (v, got) ↦ ground arith
  ]
]

pub replace_matches-ne-none :
    (env : List Bytes) (value : Bytes) (matches : List Bytes)
    → All HasValue env
    → All (λ m. contains_byte b'$' m ≡ true) matches
    → replace_matches env value matches ≢ none
unfolding replace_matches
replace_matches-ne-none env value [] h d e = cc
replace_matches-ne-none env value (m ∷ matches) h d e =
    elim (Option-cases (replace_match env value m)) [
      | inl failed ↦ replace_match-ne-none env value m h d.0 failed
      | inr (v, got) ↦ replace_matches-ne-none env v matches h d.1 (sym (go got) ∙ e)
    ]
  where
    go :
        {v : Bytes}
        → replace_match env value m ≡ some v
        → replace_matches env value (m ∷ matches) ≡ replace_matches env v matches
    go got = rw (got, replace_matches)

module _ {W : Type 0} (o : Outside W) where
  Calm-Grows :
      (b : BuildFile W) (t : Result (Unit {0}) × BuildFile W) (k : Bytes)
      → Calm o b t
      → t.0 ≢ panicked
      → Grows o k (find_env k b.config.env) (find_env k t.1.config.env)
  Calm-Grows b (ok a, b') k (_, _, _, _, _, env, _) n = env k
  Calm-Grows b (err e, b') k (_, _, _, _, _, env, _) n = env k
  Calm-Grows b (panicked, b') k h n = elim (n refl) [ ]

  cmd_env-cut :
      (b : BuildFile W) (args left right value : Bytes)
      → cut b' ' args ≡ (left, some right)
      → replace_env_matches o (trim blanks right) b.config.env ≡ some value
      → cmd_env o args b ≡ put_variable o (trim blanks left) (some value) b
  unfolding cmd_env
  cmd_env-cut b args left right value c v = rw (c, cmd_env) (rw (v) refl)

  -- ENV with a key without an equals sign, whose value has its variables replaced, leaves that
  -- value at the key and at every other key the variable that was there, or else none or the one
  -- of an image, whether or not the commit behind it fails, unless that panics.
  pub cmd_env-Grows :
      (b : BuildFile W) (args left right value k : Bytes)
      → cut b' ' args ≡ (left, some right)
      → Lacks b'=' (trim blanks left)
      → replace_env_matches o (trim blanks right) b.config.env ≡ some value
      → (cmd_env o args b).0 ≢ panicked
      → Grows o k
          (if eq_bytes (trim blanks left) k
            then some (trim blanks left ++ b'=' ∷ value)
            else find_env k b.config.env)
          (find_env k (cmd_env o args b).1.config.env)
  cmd_env-Grows b args left right value k c lacks v n =
      let key : Bytes = trim blanks left in
      let variable : Bytes = key ++ b'=' ∷ value in
      let b1 = set_variable o key variable b in
      let same = cmd_env-cut b args left right value c v in
      let put = find_env-put_env key variable k b.config.env (
        env_key-cut variable
        ∙ ap (λ (t : Bytes × Option Bytes). t.0) (cut_at b'=' key value lacks)) in
      subst (λ (x : Option Bytes). Grows o k x (find_env k (cmd_env o args b).1.config.env)) put
        (Calm-Grows b1 (cmd_env o args b) k
          (subst (Calm o b1) (sym same)
            (commit-Keeps o [] b.config.cmd (codes "ENV " ++ variable) b1))
          n)
