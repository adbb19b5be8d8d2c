-- ===== src/Builder/Create.antt =====
-- `Create` of dotcloud/docker/runtime.go, which takes a pointer to the configuration of its caller,
-- here the builder's: it is merged with the image's, and is given a host name. An empty command
-- stands for `nil`; the builder always sets a command before the call.
pub mod Extends
pub mod Frame
use docker_stuff.Base.{ℕ, Bool, true, false, List, [], ◌∷◌, Option, none, some, Bytes, take}
use docker_stuff.Config.{Config, merge_config, or_items}
use docker_stuff.Builder.{
  BuildFile, Outside, Result, ok, err, panicked, outside_failed, M, ◌>>=◌, ◌>>◌, pure, effect, call,
  check,
}

-- An entry point lets a `nil` command through.
abbrev pub has_command : List Bytes → List Bytes → Bool
has_command [] [] = false
has_command (e ∷ entrypoint) [] = true
has_command entrypoint (c ∷ cmd) = true

module _ {W : Type 0} where
  abbrev pub put_merged : Option Config → M W (Unit {0})
  put_merged none b = (panicked, b)
  put_merged (some merged) b = (ok tt, record b { config = merged })

  abbrev pub merge_into : Option Config → M W (Unit {0})
  merge_into none b = (ok tt, b)
  merge_into (some image) b = put_merged (merge_config b.config image) b

  abbrev pub command_or_error : Bool → M W (Unit {0})
  command_or_error true b = (ok tt, b)
  command_or_error false b = (err outside_failed, b)

  abbrev pub check_command : M W (Unit {0})
  check_command b = command_or_error (has_command b.config.entrypoint b.config.cmd) b

  -- `id[:12]`, of an identifier of 64 digits
  abbrev pub name_host : Bytes → BuildFile W → BuildFile W
  name_host id b = record b {
    config = record b.config { hostname = or_items b.config.hostname (take 12 id) };
  }

  module _ (o : Outside W) where
    abbrev pub make_named : Bytes → M W (Unit {0})
    make_named id b = check (o.make_container id b.config) b

    abbrev pub make_with : Bytes → M W Bytes
    make_with id b = (make_named id >> pure id) (name_host id b)

    abbrev pub create_from : Option Config → M W Bytes
    create_from image = do merge_into image; check_command; id ← effect o.generate_id; make_with id

    unfoldable pub create : M W Bytes
    unfolding merge_config
    create b = (call (o.image_config b.config.image) >>= create_from) b
