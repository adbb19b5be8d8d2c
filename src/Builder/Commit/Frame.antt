-- ===== src/Builder/Commit/Frame.antt =====
-- What the shared parts of the builder leave alone.
use docker_stuff.Base.{
  ℕ, zero, suc, ◌≡◌, ◌≢◌, refl, sym, ◌∙◌, Bool, true, false, List, [], ◌∷◌, Option, none, some,
  Bytes, Bool-cases, inl, inr,
}
use mathlib.Core.Path.{subst}
use docker_stuff.Builder.{
  BuildFile, Outside, Result, ok, err, panicked, no_container, M, ◌>>=◌, ◌>>◌, pure, after, effect,
  call, check, result_of,
}
use docker_stuff.Builder.Create.{create}
use docker_stuff.Builder.Create.Extends.{
  Extends, Extends-refl, Calm, Calm-trans, Keeps, after-Calm, >>=-Calm, call-Keeps, check-Keeps,
  MergePanic,
}
use docker_stuff.Builder.Create.Frame.{create-Keeps}
use docker_stuff.Builder.Commit.{
  set_cmd, set_config_image, restoring, taken, probe, try_cache, create_container, commit_image,
  commit_container, deferring_unmount, commit_mounted, commit_new, commit_source, commit, attach_if,
  check_code, run_source, run, is_empty, run_container, run_created, note_container, note_image,
  commit_unless,
}

module _ {W : Type 0} (o : Outside W) where
  -- An outcome extends the configuration and has its command, or is the panic of a merge.
  abbrev pub Restored : {A : Type 0} → BuildFile W → Result A × BuildFile W → Type 0
  Restored b (ok a, b') = (b'.config.cmd ≡ b.config.cmd) × Extends o b.config b'.config
  Restored b (err e, b') = (b'.config.cmd ≡ b.config.cmd) × Extends o b.config b'.config
  Restored b (panicked, b') = MergePanic o

  pub Restored-Calm :
      {A : Type 0} (b : BuildFile W) (t : Result A × BuildFile W) → Restored b t → Calm o b t
  Restored-Calm b (ok a, b') h = h.1
  Restored-Calm b (err e, b') h = h.1
  Restored-Calm b (panicked, b') h = h

  -- What a method that runs with another command, which is restored behind it, leaves.
  pub restoring-Restored :
      {A : Type 0} (cmd : List Bytes) (m : M W A) (b : BuildFile W)
      → Calm o (set_cmd cmd b) (m (set_cmd cmd b))
      → Restored b (restoring b.config.cmd m (set_cmd cmd b))
  unfolding restoring
  restoring-Restored {A = A} cmd m b h = go (m (set_cmd cmd b)) h
    where
      go :
          (t : Result A × BuildFile W)
          → Calm o (set_cmd cmd b) t
          → Restored b (t.0, set_cmd b.config.cmd t.1)
      go (ok a, b') (_, user, entry, dir, host, env, values) =
          (refl, ((λ some_item. refl), user, entry, dir, host, env, values))
      go (err e, b') (_, user, entry, dir, host, env, values) =
          (refl, ((λ some_item. refl), user, entry, dir, host, env, values))
      go (panicked, b') panic = panic

  taken-Keeps : (cache : Option Bytes) → Keeps o (taken o cache)
  taken-Keeps none b = Extends-refl o b.config
  taken-Keeps (some id) b = Extends-refl o b.config

  probe-Keeps : Keeps o (probe o)
  unfolding probe
  probe-Keeps b =
      let f = o.image_get_cached b.image b.config in
      >>=-Calm o (call f) (taken o) b (call-Keeps o f b) taken-Keeps

  try_cache-flag :
      (flag : Bool) (b : BuildFile W)
      → Calm o {A = Bool} b (elim flag [ true ↦ probe o b | false ↦ (ok false, b) ])
  try_cache-flag true b = probe-Keeps b
  try_cache-flag false b = Extends-refl o b.config

  pub try_cache-Keeps : Keeps o (try_cache o)
  unfolding try_cache
  try_cache-Keeps b = try_cache-flag b.utilize_cache b

  pub create_container-Keeps : Keeps o (create_container o)
  unfolding create_container
  create_container-Keeps b =
      >>=-Calm o (create o) (note_container o) b (create-Keeps o b)
        (λ id b'. Extends-refl o b'.config)

  -- A commit of a container leaves the configuration as it is.
  commit_image-Restored :
      (id : Bytes) (auto_cmd : List Bytes) (b : BuildFile W)
      → Restored b (commit_image o id auto_cmd b)
  unfolding commit_image
  commit_image-Restored id auto_cmd b =
      go (o.commit_container id b.maintainer (record b.config { cmd = auto_cmd }) b.world)
    where
      go :
          (t : Option Bytes × W)
          → Restored b (after (result_of t.0) (note_image o) (record b { world = t.1 }))
      go (none, w) = (refl, Extends-refl o b.config)
      go (some image, w) = (refl, Extends-refl o b.config)

  commit_container-exists :
      (there : Bool) (id : Bytes) (auto_cmd : List Bytes) (b : BuildFile W)
      → Restored {A = Unit {0}} b
          (elim there [ true ↦ commit_image o id auto_cmd b | false ↦ (err no_container, b) ])
  commit_container-exists true id auto_cmd b = commit_image-Restored id auto_cmd b
  commit_container-exists false id auto_cmd b = (refl, Extends-refl o b.config)

  pub commit_container-Restored :
      (id : Bytes) (auto_cmd : List Bytes) (b : BuildFile W)
      → Restored b (commit_container o id auto_cmd b)
  unfolding commit_container
  commit_container-Restored id auto_cmd b = commit_container-exists (o.get id b.world) id auto_cmd b

  commit_container-Keeps :
      (id : Bytes) (auto_cmd : List Bytes) → Keeps o (commit_container o id auto_cmd)
  commit_container-Keeps id auto_cmd b = Restored-Calm b _ (commit_container-Restored id auto_cmd b)

  unmount-Calm :
      {A : Type 0} (b : BuildFile W) (id : Bytes) (t : Result A × BuildFile W)
      → Calm o b t
      → Calm o b (t.0, record t.1 { world = o.unmount id t.1.world })
  unmount-Calm b id (ok a, b') h = h
  unmount-Calm b id (err e, b') h = h
  unmount-Calm b id (panicked, b') h = h

  pub deferring_unmount-Keeps :
      (id : Bytes) (m : M W (Unit {0})) → Keeps o m → Keeps o (deferring_unmount o id m)
  deferring_unmount-Keeps id m h b = unmount-Calm b id (m b) (h b)

  commit_mounted-Keeps :
      (id : Bytes) (auto_cmd : List Bytes) → Keeps o (commit_mounted o id auto_cmd)
  unfolding commit_mounted
  commit_mounted-Keeps id auto_cmd b =
      let m = deferring_unmount o id (commit_container o id auto_cmd) in
      >>=-Calm o (check (o.ensure_mounted id)) (λ _. m) b (check-Keeps o (o.ensure_mounted id) b)
        (λ _. deferring_unmount-Keeps id _ (commit_container-Keeps id auto_cmd))

  commit_unless-Keeps :
      (used : Bool) (auto_cmd : List Bytes) → Keeps o (commit_unless o used auto_cmd)
  commit_unless-Keeps true auto_cmd b = Extends-refl o b.config
  commit_unless-Keeps false auto_cmd b =
      >>=-Calm o (create_container o) (λ id. commit_mounted o id auto_cmd) b
        (create_container-Keeps b) (λ id. commit_mounted-Keeps id auto_cmd)

  commit_new-Keeps : (auto_cmd : List Bytes) → Keeps o (commit_new o auto_cmd)
  unfolding commit_new
  commit_new-Keeps auto_cmd b =
      >>=-Calm o (try_cache o) (λ used. commit_unless o used auto_cmd) b (try_cache-Keeps b)
        (λ used. commit_unless-Keeps used auto_cmd)

  commit_source-Restored :
      (id : Bytes) (auto_cmd : List Bytes) (comment : Bytes) (b : BuildFile W)
      → Restored b (commit_source o id auto_cmd comment b)
  commit_source-Restored [] auto_cmd comment b =
      restoring-Restored _ (commit_new o auto_cmd) b (commit_new-Keeps auto_cmd _)
  commit_source-Restored (c ∷ id) auto_cmd comment b = commit_container-Restored (c ∷ id) auto_cmd b

  pub commit-Restored :
      (id : Bytes) (auto_cmd : List Bytes) (comment : Bytes) (b : BuildFile W)
      → Restored b (commit o id auto_cmd comment b)
  unfolding commit
  commit-Restored id auto_cmd comment b = elim (Bool-cases (is_empty b.image)) [
    | inl none_yet ↦ rw none_yet (refl, Extends-refl o b.config)
    | inr some_image ↦ rw some_image (
        imaged (commit_source o id auto_cmd comment (set_config_image b))
          (commit_source-Restored id auto_cmd comment (set_config_image b)))
  ]
    where
      imaged :
          (t : Result (Unit {0}) × BuildFile W) → Restored (set_config_image b) t → Restored b t
      imaged (ok a, b') h = h
      imaged (err e, b') h = h
      imaged (panicked, b') h = h

  pub commit-Keeps :
      (id : Bytes) (auto_cmd : List Bytes) (comment : Bytes)
      → Keeps o (commit o id auto_cmd comment)
  commit-Keeps id auto_cmd comment b = Restored-Calm b _ (commit-Restored id auto_cmd comment b)

  attach_if-Keeps : (verbose : Bool) (id : Bytes) → Keeps o (attach_if o verbose id)
  attach_if-Keeps true id b = check-Keeps o (o.attach id) b
  attach_if-Keeps false id b = Extends-refl o b.config

  check_code-Keeps : (code : ℕ) → Keeps o (check_code o code)
  check_code-Keeps zero b = Extends-refl o b.config
  check_code-Keeps (suc n) b = Extends-refl o b.config

  run_container-Keeps :
      (path : Bytes) (args : List Bytes) (verbose : Bool) (id : Bytes)
      → Keeps o (run_container o (path ∷ args) verbose id)
  unfolding run_container
  run_container-Keeps path args verbose id b =
      let coded = λ (code : ℕ). check_code o code >> pure id in
      let waited = effect (o.wait id) >>= coded in
      >>=-Calm o (check (o.start id path args)) (λ _. attach_if o verbose id >> waited) b
        (check-Keeps o (o.start id path args) b)
        (λ _ b1.
          >>=-Calm o (attach_if o verbose id) (λ _. waited) b1 (attach_if-Keeps verbose id b1)
            (λ _ b2. >>=-Calm o (effect (o.wait id)) coded b2 (Extends-refl o b2.config) (λ code b3.
              >>=-Calm o (check_code o code) (λ _. pure id) b3 (check_code-Keeps code b3)
                (λ _ b4. Extends-refl o b4.config))))

  run_created-Calm :
      (id : Bytes) (b : BuildFile W) (path : Bytes) (args : List Bytes)
      → b.config.cmd ≡ path ∷ args
      → Calm o b (run_created o id b)
  run_created-Calm id b path args e =
      subst (λ cmd. Calm o b (run_container o cmd b.verbose id b)) (sym e)
        (run_container-Keeps path args b.verbose id b)

  pub cons-ne-nil : (xs : List Bytes) (x : Bytes) (ys : List Bytes) → xs ≡ x ∷ ys → xs ≢ []
  cons-ne-nil xs x ys e none_left = cc

  -- With a command, which is not empty, `run` panics only where `Create` does.
  pub run-Calm :
      (b : BuildFile W) (path : Bytes) (args : List Bytes)
      → b.config.cmd ≡ path ∷ args
      → Calm o b (run o b)
  unfolding run run_source
  run-Calm b path args e = elim (Bool-cases (is_empty b.image)) [
    | inl none_yet ↦ rw none_yet (Extends-refl o b.config)
    | inr some_image ↦ rw some_image (
        let b1 = set_config_image b in
        let kept : Calm o b1 (run_source o b1) =
          after-Calm o b1 (create_container o b1) (run_created o) (create_container-Keeps b1)
            (λ id b2 extends.
              run_created-Calm id b2 path args
                (extends.0 (cons-ne-nil b1.config.cmd path args e) ∙ e)) in
        Calm-trans o b1 b (run_source o b1) (Extends-refl o b.config) kept)
  ]
