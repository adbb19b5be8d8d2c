-- ===== src/Config/Examples.antt =====
-- Configurations of two containers, and runs of the merge.
use docker_stuff.Base.{◌≡◌, refl, ◌↔◌, true, false, [], ◌∷◌, some, codes}
use docker_stuff.Config.{Config, compare_config, merge_env, add_env, has_env, env_key}
use docker_stuff.Config.Compare.{Same, compare_config_iff}
use docker_stuff.Config.Merge.{find_env, or_else, count_env, merged_count, merge_env_lem}
use docker_stuff.Text.Split.{eq_bytes, split, onto_first}

abbrev web : Config
web = record {
  hostname = codes "a";
  domainname = [];
  user = codes "www";
  memory = 1024;
  memory_swap = 0;
  cpu_shares = 0;
  attach_stdin = false;
  attach_stdout = true;
  attach_stderr = true;
  port_specs = codes "80" ∷ [];
  tty = false;
  open_stdin = false;
  stdin_once = false;
  env = codes "A=1" ∷ [];
  cmd = codes "serve" ∷ [];
  dns = [];
  image = codes "base";
  volumes = codes "/data" ∷ [];
  volumes_from = [];
  working_dir = [];
  entrypoint = [];
  network_disabled = false;
  privileged = false;
}

abbrev other_web : Config
other_web = record web { hostname = codes "b"; image = codes "other" }

compare_config_iff_example :
    (compare_config (some web) (some other_web) ≡ true) ↔ Same web other_web
compare_config_iff_example = compare_config_iff web other_web

merge_env_lem_example :
    (find_env (codes "B") (merge_env (codes "A=1" ∷ []) (codes "A=2" ∷ codes "B=3" ∷ []))
      ≡ or_else
          (find_env (codes "B") (codes "A=1" ∷ []))
          (find_env (codes "B") (codes "A=2" ∷ codes "B=3" ∷ [])))
    × (count_env (codes "B") (merge_env (codes "A=1" ∷ []) (codes "A=2" ∷ codes "B=3" ∷ []))
        ≡ merged_count (codes "B") (codes "A=1" ∷ []) (codes "A=2" ∷ codes "B=3" ∷ []))
merge_env_lem_example =
    merge_env_lem (codes "B") (codes "A=1" ∷ []) (codes "A=2" ∷ codes "B=3" ∷ [])

-- The image's second variable A is left out.
merged_once :
    merge_env (codes "A=1" ∷ []) (codes "A=2" ∷ codes "B=3" ∷ []) ≡ codes "A=1" ∷ codes "B=3" ∷ []
unfolding merge_env add_env has_env env_key eq_bytes split onto_first
merged_once = refl
