-- ===== src/Builder/Instructions/Variables.antt =====
-- The instructions that replace variables, `CmdEnv` and `CmdAdd`.
use docker_stuff.Base.{
  ◌≡◌, ◌≢◌, refl, true, List, [], ◌∷◌, ◌++◌, Option, none, some, Bytes, codes, All,
}
use docker_stuff.Text.Split.{cut, contains_byte}
use docker_stuff.Text.Trim.{trim}
use docker_stuff.Builder.{no_context, BuildFile, Outside, err, ◌>>=◌}
use docker_stuff.Builder.Commit.{is_empty, shell, set_cmd, set_config_image, create_container}
use docker_stuff.Builder.Env.{
  blanks, replace_env_matches, cmd_env, env_of_parts, put_variable, set_variable,
}
use docker_stuff.Builder.Create.Extends.{HasValue, Valued}
use docker_stuff.Builder.Env.Variables.{put_env-HasValue, cut-HasValue, replace_matches-ne-none}
use docker_stuff.Builder.Add.{cmd_add, add_parts, add_files, add_in_container, restore_cmd}
use docker_stuff.Builder.Add.Effects.{add_step-Keeps}
use docker_stuff.Builder.Instructions.Sound.{
  HasValues, Fine, after-Fine, Calm-Fine, if-Fine, commit-Fine,
}

module _ {W : Type 0} (o : Outside W) (valued : Valued o) where
  cmd_env-go :
      (b : BuildFile W) (key : Bytes) (value : Option Bytes)
      → value ≢ none
      → HasValues b
      → Fine o (put_variable o key value b)
  cmd_env-go b key none there h = elim (there refl) [ ]
  cmd_env-go b key (some value) there h =
      commit-Fine o valued [] b.config.cmd (codes "ENV " ++ (key ++ b'=' ∷ value))
        (set_variable o key (key ++ b'=' ∷ value) b)
        (put_env-HasValue key (key ++ b'=' ∷ value) b.config.env (cut-HasValue key value) h)

  module _ (dollars : (s : Bytes) → All (λ m. contains_byte b'$' m ≡ true) (o.env_matches s)) where
    replaced-ne-none :
        (value : Bytes) (env : List Bytes)
        → All HasValue env
        → replace_env_matches o value env ≢ none
    unfolding replace_env_matches
    replaced-ne-none value env h =
        replace_matches-ne-none env value (o.env_matches value) h (dollars value)

    env_of_parts-Fine :
        (parts : Bytes × Option Bytes) (b : BuildFile W)
        → HasValues b
        → Fine o (env_of_parts o parts b)
    env_of_parts-Fine (left, none) b h = h
    env_of_parts-Fine (left, some right) b h =
        cmd_env-go b (trim blanks left) (replace_env_matches o (trim blanks right) b.config.env)
          (replaced-ne-none (trim blanks right) b.config.env h) h

    pub cmd_env-Fine : (args : Bytes) (b : BuildFile W) → HasValues b → Fine o (cmd_env o args b)
    unfolding cmd_env
    cmd_env-Fine args b h = env_of_parts-Fine (cut b' ' args) b h

    add_files-Fine :
        (orig dest : Option Bytes) (b : BuildFile W)
        → orig ≢ none
        → dest ≢ none
        → HasValues b
        → Fine o (add_files o orig dest b)
    unfolding add_files
    add_files-Fine none dest b p q h = elim (p refl) [ ]
    add_files-Fine (some orig) none b p q h = elim (q refl) [ ]
    add_files-Fine (some orig) (some dest) b p q h =
        let nop = codes "#(nop) ADD " ++ (orig ++ (codes " in " ++ dest)) in
        let b1 = set_config_image (set_cmd (shell nop) b) in
        let step = create_container o >>= add_in_container o b.config.cmd orig dest in
        after-Fine o (step b1) (λ _. restore_cmd o b.config.cmd)
          (Calm-Fine o valued b1 (step b1) (add_step-Keeps o b.config.cmd orig dest b1) h)
          (λ _ b2 h2. h2)

    add_parts-Fine :
        (parts : Bytes × Option Bytes) (b : BuildFile W)
        → HasValues b
        → Fine o (add_parts o parts b)
    add_parts-Fine (left, none) b h = h
    add_parts-Fine (left, some right) b h =
        add_files-Fine (replace_env_matches o (trim blanks left) b.config.env)
          (replace_env_matches o (trim blanks right) b.config.env) b
          (replaced-ne-none (trim blanks left) b.config.env h)
          (replaced-ne-none (trim blanks right) b.config.env h) h

    pub cmd_add-Fine : (args : Bytes) (b : BuildFile W) → HasValues b → Fine o (cmd_add o args b)
    unfolding cmd_add
    cmd_add-Fine args b h =
        if-Fine o (is_empty b.context) (err no_context, b) (add_parts o (cut b' ' args) b) h
          (add_parts-Fine (cut b' ' args) b h)
