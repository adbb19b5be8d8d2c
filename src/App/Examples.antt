-- ===== src/App/Examples.antt =====
-- Teams, units and environments of small apps.
use docker_stuff.Base.{
  ◌≡◌, ◌⊎◌, refl, Bool-cases, inl, inr, none, some, true, false, List, [], ◌∷◌, ◌++◌, Bytes, All,
}
use mathlib.Core.Path.{subst}
use docker_stuff.Text.Split.{eq_bytes, eq_bytes_iff, has_text}
use docker_stuff.TagStore.Tables.{less, insert_name, find}
use docker_stuff.App.{EnvVar, App}
use docker_stuff.App.Env.{Env, Saving, set_envs_to_app, unset_envs}
use docker_stuff.App.Env.Laws.{names_of, private_kept}
use docker_stuff.App.Teams
use docker_stuff.App.Teams.{
  search, put_at, shift, insert_in, Change, granted, already_access, no_access, revoked, grant,
  revoke, set_teams,
}
use docker_stuff.App.Teams.Access.{Sorted}
use docker_stuff.App.Teams.Insertion.{copies}
use docker_stuff.App.Teams.Changes.{grant_lem, revoke_lem, set_teams-Sorted}

abbrev team_a : Bytes
team_a = b'a' ∷ []

abbrev team_b : Bytes
team_b = b'b' ∷ []

abbrev team_c : Bytes
team_c = b'c' ∷ []

abbrev team_d : Bytes
team_d = b'd' ∷ []

abbrev three : List Bytes
three = team_a ∷ team_c ∷ team_d ∷ []

three-Sorted : Sorted three
unfolding set_teams insert_name less
three-Sorted = set_teams-Sorted (team_d ∷ team_a ∷ team_c ∷ [])

-- The last team is written over.
loses_team : grant team_b three ≡ granted (team_a ∷ team_b ∷ team_c ∷ team_c ∷ [])
unfolding grant Teams.find search less eq_bytes insert_in shift put_at
loses_team = refl

gives_back : revoke team_c three ≡ revoked (team_a ∷ team_d ∷ [])
unfolding revoke Teams.find search less eq_bytes
gives_back = refl

grant_lem_example :
    ((has_text team_b three ≡ true) × (grant team_b three ≡ already_access))
    ⊎ ((has_text team_b three ≡ false)
        × (front : List Bytes) × (back : List Bytes) × (three ≡ front ++ back)
        × All (λ t. less t team_b ≡ true) front
        × All (λ t. less t team_b ≡ false) back
        × (grant team_b three ≡ granted (front ++ team_b ∷ copies back))
        × Sorted (front ++ team_b ∷ copies back))
grant_lem_example = grant_lem team_b three three-Sorted

revoke_lem_example :
    ((has_text team_c three ≡ false) × (revoke team_c three ≡ no_access))
    ⊎ ((has_text team_c three ≡ true)
        × (front : List Bytes) × (back : List Bytes) × (three ≡ front ++ team_c ∷ back)
        × All (λ t. less t team_c ≡ true) front
        × (revoke team_c three ≡ revoked (front ++ back)))
revoke_lem_example = revoke_lem team_c three three-Sorted

abbrev hidden : EnvVar
hidden = record { name = team_a; value = team_b; public = false; instance_name = [] }

abbrev shown : EnvVar
shown = record { name = team_b; value = team_c; public = true; instance_name = [] }

abbrev app : App
app = record {
  env = (team_a, hidden) ∷ [];
  platform = [];
  name = team_c;
  ip = [];
  cname = [];
  units = [];
  teams = three;
  owner = [];
  state = [];
  deploys = 0;
}

-- The saved environments, the last one first.
abbrev saves : Saving (List Env)
saves = record {
  connected = λ w. true;
  update_env = λ name env w. (true, env ∷ w);
  enqueue = λ name w. w;
  serialize = λ a w. w;
}

hidden_there : find team_a app.env ≡ some hidden
unfolding find eq_bytes
hidden_there = refl

private_kept_example :
    (find team_a
        (set_envs_to_app saves
          (record hidden { public = true } ∷ shown ∷ [])
          true
          false
          app
          []).1.env
      ≡ some hidden)
    × (find team_a (unset_envs saves (team_a ∷ team_b ∷ []) true app []).1.env ≡ some hidden)
private_kept_example =
    private_kept saves team_a hidden (record hidden { public = true } ∷ shown ∷ [])
      (team_a ∷ team_b ∷ []) false app [] refl hidden_there

lacking : find team_b app.env ≡ none
unfolding find eq_bytes
lacking = refl

shown-fresh : (k : Bytes) → has_text k (names_of (shown ∷ [])) ≡ true → find k app.env ≡ none
unfolding has_text find
shown-fresh k has = elim (Bool-cases (eq_bytes team_b k)) [
  | inl same ↦ subst (λ (n : Bytes). find n app.env ≡ none) ((eq_bytes_iff team_b k).0 same) lacking
  | inr other ↦ elim (no_way (rw other at has)) [ ]
]
  where
    no_way : false ≡ true → ⊥
    no_way e = cc
