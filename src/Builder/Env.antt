-- ===== src/Builder/Env.antt =====
-- The variables of dotcloud/docker/buildfile.go: `FindEnvKey`, `ReplaceEnvMatches` and `CmdEnv`.
pub mod Variables
use docker_stuff.Base.{
  ℕ, zero, suc, ◌==◌, if◌then◌else◌, Bool, true, false, List, [], ◌∷◌, ◌++◌, Option, none, some,
  Bytes, codes,
}
use docker_stuff.Text.Split.{cut, eq_bytes}
use docker_stuff.Text.Trim.{trim, replace_all}
use docker_stuff.Config.{Config}
use docker_stuff.Builder.{BuildFile, Outside, Result, ok, err, panicked, BuildError, bad_format, M}
use docker_stuff.Builder.Commit.{commit}

-- The index of the first variable with a key.
unfoldable pub find_env_key : Bytes → List Bytes → Option ℕ
find_env_key key [] = none
find_env_key key (e ∷ env) =
    let later : Option ℕ = elim (find_env_key key env) [ none ↦ none | some i ↦ some (suc i) ] in
    if eq_bytes key (cut b'=' e).0 then some 0 else later

-- `match[strings.Index(match, "$"):]`: without a dollar the index panics.
unfoldable pub from_dollar : Bytes → Option Bytes
from_dollar [] = none
from_dollar (c ∷ s) = let rest = from_dollar s in if c == b'$' then some (c ∷ s) else rest

-- The loop over the variables: the value of a key, if one has it. `none` is a panic, at a variable
-- without a value.
unfoldable pub value_of_key : Bytes → List Bytes → Option (Option Bytes)
value_of_key key [] = some none
value_of_key key (e ∷ env) =
    let rest = value_of_key key env in
    elim (cut b'=' e).1 [
      | none ↦ none
      | some v ↦ if eq_bytes (cut b'=' e).0 key then some (some v) else rest
    ]

unfoldable pub replace_match : List Bytes → Bytes → Bytes → Option Bytes
unfolding from_dollar value_of_key trim replace_all
replace_match env value text = elim (from_dollar text) [
  | none ↦ none
  | some m ↦ elim (value_of_key (trim (codes "${}") m) env) [
    | none ↦ none
    | some found ↦ elim found [ none ↦ some value | some v ↦ some (replace_all m v value) ]
  ]
]

unfoldable pub replace_matches : List Bytes → Bytes → List Bytes → Option Bytes
unfolding replace_match
replace_matches env value [] = some value
replace_matches env value (m ∷ matches) = elim (replace_match env value m) [
  | none ↦ none
  | some replaced ↦ replace_matches env replaced matches
]

-- `env[i] = variable`
abbrev pub set {ℓ} : {A : Type ℓ} → List A → ℕ → A → List A
set [] i v = []
set (x ∷ xs) zero v = v ∷ xs
set (x ∷ xs) (suc i) v = x ∷ set xs i v

unfoldable pub put_env : Bytes → Bytes → List Bytes → List Bytes
unfolding find_env_key
put_env key variable env = elim (find_env_key key env) [
  | some i ↦ set env i variable
  | none ↦ env ++ variable ∷ []
]

abbrev pub blanks : Bytes
blanks = codes " \t"

module _ {W : Type 0} (o : Outside W) where
  unfoldable pub replace_env_matches : Bytes → List Bytes → Option Bytes
  unfolding replace_matches
  replace_env_matches value env = replace_matches env value (o.env_matches value)

  abbrev pub set_variable : Bytes → Bytes → BuildFile W → BuildFile W
  set_variable key variable b = record b {
    config = record b.config { env = put_env key variable b.config.env };
  }

  abbrev pub put_variable : Bytes → Option Bytes → M W (Unit {0})
  put_variable key none b = (panicked, b)
  put_variable key (some value) b =
      commit o [] b.config.cmd (codes "ENV " ++ (key ++ b'=' ∷ value))
        (set_variable key (key ++ b'=' ∷ value) b)

  abbrev pub env_of_parts : Bytes × Option Bytes → M W (Unit {0})
  env_of_parts (left, none) b = (err bad_format, b)
  env_of_parts (left, some right) b =
      put_variable (trim blanks left) (replace_env_matches (trim blanks right) b.config.env) b

  unfoldable pub cmd_env : Bytes → M W (Unit {0})
  unfolding cut
  cmd_env args = env_of_parts (cut b' ' args)
