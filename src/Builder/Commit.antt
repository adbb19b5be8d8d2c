-- ===== src/Builder/Commit.antt =====
-- `commit` and `run` of dotcloud/docker/buildfile.go, and the cache that they share with `CmdRun`.
pub mod Frame
use docker_stuff.Base.{
  ℕ, zero, suc, if◌then◌else◌, Bool, true, false, List, [], ◌∷◌, ◌++◌, Option, none, some, Bytes,
  codes,
}
use docker_stuff.Config.{Config}
use docker_stuff.Builder.Create.{create}
use docker_stuff.Builder.{
  BuildFile, Outside, Result, ok, err, panicked, BuildError, no_source, no_container, non_zero_code,
  M, ◌>>=◌, ◌>>◌, pure, raise, panic, modify, effect, call, check, add_id,
}

abbrev pub is_empty : Bytes → Bool
is_empty [] = true
is_empty (c ∷ s) = false

abbrev pub shell : Bytes → List Bytes
shell command = codes "/bin/sh" ∷ codes "-c" ∷ command ∷ []

module _ {W : Type 0} where
  abbrev pub set_cmd : List Bytes → BuildFile W → BuildFile W
  set_cmd cmd b = record b { config = record b.config { cmd = cmd } }

  abbrev pub set_config_image : BuildFile W → BuildFile W
  set_config_image b = record b { config = record b.config { image = b.image } }

  -- `defer func(cmd []string) { b.config.Cmd = cmd }(cmd)` around what follows it.
  unfoldable pub restoring : {A : Type 0} → List Bytes → M W A → M W A
  restoring cmd m b = let (r, b') = m b in (r, set_cmd cmd b')

  module _ (o : Outside W) where
    -- Whether an image of the cache was taken, which is then the image of the builder.
    abbrev taken : Option Bytes → M W Bool
    taken none b = (ok false, b)
    taken (some id) b = (ok true, record b { image = id })

    unfoldable pub probe : M W Bool
    probe b = (call (o.image_get_cached b.image b.config) >>= taken) b

    unfoldable pub try_cache : M W Bool
    unfolding probe
    try_cache b = elim b.utilize_cache [ true ↦ probe b | false ↦ (ok false, b) ]

    abbrev note_container : Bytes → M W Bytes
    note_container id b = (ok id, record b { tmp_containers = add_id id b.tmp_containers })

    unfoldable pub create_container : M W Bytes
    unfolding create
    create_container = create o >>= note_container

    abbrev note_image : Bytes → M W (Unit {0})
    note_image id b = (ok tt, record b { tmp_images = add_id id b.tmp_images; image = id })

    unfoldable pub commit_image : Bytes → List Bytes → M W (Unit {0})
    commit_image id auto_cmd b =
        (call (o.commit_container id b.maintainer (record b.config { cmd = auto_cmd }))
            >>= note_image)
          b

    -- The end of `commit`, for a container.
    unfoldable pub commit_container : Bytes → List Bytes → M W (Unit {0})
    unfolding commit_image
    commit_container id auto_cmd b = elim (o.get id b.world) [
      | true ↦ commit_image id auto_cmd b
      | false ↦ (err no_container, b)
    ]

    abbrev pub deferring_unmount : Bytes → M W (Unit {0}) → M W (Unit {0})
    deferring_unmount id m b = let (r, b') = m b in (r, record b' { world = o.unmount id b'.world })

    unfoldable pub commit_mounted : Bytes → List Bytes → M W (Unit {0})
    unfolding commit_container
    commit_mounted id auto_cmd =
        check (o.ensure_mounted id) >> deferring_unmount id (commit_container id auto_cmd)

    abbrev commit_unless : Bool → List Bytes → M W (Unit {0})
    commit_unless true auto_cmd = pure tt
    commit_unless false auto_cmd = do id ← create_container; commit_mounted id auto_cmd

    -- The part of `commit` for an empty `id`.
    unfoldable pub commit_new : List Bytes → M W (Unit {0})
    unfolding try_cache
    commit_new auto_cmd = do used ← try_cache; commit_unless used auto_cmd

    abbrev commit_source : Bytes → List Bytes → Bytes → M W (Unit {0})
    commit_source [] auto_cmd comment b =
        restoring b.config.cmd (commit_new auto_cmd)
          (set_cmd (shell (codes "#(nop) " ++ comment)) b)
    commit_source (c ∷ id) auto_cmd comment b = commit_container (c ∷ id) auto_cmd b

    unfoldable pub commit : Bytes → List Bytes → Bytes → M W (Unit {0})
    commit id auto_cmd comment b =
        if is_empty b.image
        then (err no_source, b)
        else commit_source id auto_cmd comment (set_config_image b)

    -- The command of the container is that of the configuration: without one the index panics.
    abbrev start_with : Bytes → List Bytes → M W (Unit {0})
    start_with id [] = panic
    start_with id (path ∷ args) = check (o.start id path args)

    abbrev attach_if : Bool → Bytes → M W (Unit {0})
    attach_if true id = check (o.attach id)
    attach_if false id = pure tt

    abbrev check_code : ℕ → M W (Unit {0})
    check_code zero = pure tt
    check_code (suc n) = raise (non_zero_code (suc n))

    unfoldable pub run_container : List Bytes → Bool → Bytes → M W Bytes
    run_container cmd verbose id = do
      start_with id cmd
      attach_if verbose id
      code ← effect (o.wait id)
      check_code code
      pure id

    abbrev run_created : Bytes → M W Bytes
    run_created id b = run_container b.config.cmd b.verbose id b

    unfoldable pub run_source : M W Bytes
    unfolding create_container run_container
    run_source = create_container >>= run_created

    unfoldable pub run : M W Bytes
    unfolding run_source
    run b = if is_empty b.image then (err no_source, b) else run_source (set_config_image b)
