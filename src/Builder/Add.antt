-- ===== src/Builder/Add.antt =====
-- `CmdAdd` of dotcloud/docker/buildfile.go, with `addRemote` and `addContext`.
pub mod Effects
use docker_stuff.Base.{
  ℕ, if◌then◌else◌, Bool, true, false, List, [], ◌∷◌, ◌++◌, Option, none, some, Bytes, codes, ◌==◌,
}
use docker_stuff.Text.Split.{cut, split}
use docker_stuff.Text.Trim.{trim, has_prefix}
use docker_stuff.Builder.{
  BuildFile, Outside, Result, ok, err, panicked, BuildError, bad_format, no_context, no_filename,
  forbidden_path, no_such_file, outside_failed, FileKind, no_file, directory, plain_file, M, ◌>>=◌,
  ◌>>◌, pure, raise, effect, call, check,
}
use docker_stuff.Builder.Commit.{
  is_empty, shell, set_cmd, set_config_image, create_container, deferring_unmount, commit,
}
use docker_stuff.Builder.Env.{blanks, replace_env_matches}

unfoldable pub ends_in_slash : Bytes → Bool
ends_in_slash [] = false
ends_in_slash (c ∷ []) = c == b'/'
ends_in_slash (c ∷ d ∷ s) = ends_in_slash (d ∷ s)

unfoldable pub drop_last : Bytes → Bytes
drop_last [] = []
drop_last (c ∷ []) = []
drop_last (c ∷ d ∷ s) = c ∷ drop_last (d ∷ s)

unfoldable pub last_part : List Bytes → Bytes
last_part [] = []
last_part (p ∷ []) = p
last_part (p ∷ q ∷ ps) = last_part (q ∷ ps)

-- The last part of the path of a URL.
unfoldable pub filename_of : Bytes → Bytes
unfolding ends_in_slash drop_last last_part split
filename_of path = last_part (split b'/' (if ends_in_slash path then drop_last path else path))

module _ {W : Type 0} (o : Outside W) where
  abbrev inject_into : Bytes → Bytes → Bytes → M W (Unit {0})
  inject_into id body dest = check (o.inject id body dest)

  abbrev inject_named : Bytes → Bytes → Bytes → Bytes → M W (Unit {0})
  inject_named id body dest filename b =
      if is_empty filename then (err no_filename, b) else inject_into id body (dest ++ filename) b

  abbrev inject_url : Bytes → Bytes → Bytes → Option Bytes → M W (Unit {0})
  inject_url id body dest none b = (err outside_failed, b)
  inject_url id body dest (some path) b = inject_named id body dest (filename_of path) b

  abbrev inject_file : Bytes → Bytes → Bytes → Bytes → M W (Unit {0})
  inject_file id orig dest body b =
      if ends_in_slash dest
      then inject_url id body dest (o.url_path orig) b
      else inject_into id body dest b

  unfoldable pub add_remote : Bytes → Bytes → Bytes → M W (Unit {0})
  add_remote id orig dest = do body ← call (o.download orig); inject_file id orig dest body

  -- A file that is no archive is copied.
  abbrev copy_unless : Bool → Bytes → Bytes → M W (Unit {0})
  copy_unless true orig_path dest_path = pure tt
  copy_unless false orig_path dest_path =
      check (o.mkdir_all (o.dir_of dest_path)) >> check (o.copy_with_tar orig_path dest_path)

  abbrev add_kind : FileKind → Bytes → Bytes → M W (Unit {0})
  add_kind no_file orig_path dest_path = raise no_such_file
  add_kind directory orig_path dest_path = check (o.copy_with_tar orig_path dest_path)
  add_kind plain_file orig_path dest_path =
      effect (o.untar_path orig_path dest_path) >>= λ untarred.
      copy_unless untarred orig_path dest_path

  -- The destination in the container, with the slash that `Join` takes off its end.
  abbrev dest_in : Bytes → Bytes → BuildFile W → Bytes
  dest_in id dest b =
      let path = o.join_path (o.rootfs id b.world) dest in
      if ends_in_slash dest then path ++ b'/' ∷ [] else path

  unfoldable pub add_context : Bytes → Bytes → Bytes → M W (Unit {0})
  unfolding has_prefix
  add_context id orig dest b =
      let orig_path = o.join_path b.context orig in
      if has_prefix b.context orig_path
      then add_kind (o.stat orig_path b.world) orig_path (dest_in id dest b) b
      else (err forbidden_path, b)

  abbrev add_source : Bytes → Bytes → Bytes → M W (Unit {0})
  add_source id orig dest =
      if o.is_url orig then add_remote id orig dest else add_context id orig dest

  unfoldable pub add_mounted : Bytes → List Bytes → Bytes → Bytes → M W (Unit {0})
  unfolding commit
  add_mounted id cmd orig dest = do
    add_source id orig dest
    commit o id cmd (codes "ADD " ++ (orig ++ (codes " in " ++ dest)))

  unfoldable pub add_in_container : List Bytes → Bytes → Bytes → Bytes → M W (Unit {0})
  unfolding add_mounted
  add_in_container cmd orig dest id =
      check (o.ensure_mounted id) >> deferring_unmount o id (add_mounted id cmd orig dest)

  abbrev pub restore_cmd : List Bytes → M W (Unit {0})
  restore_cmd cmd b = (ok tt, set_cmd cmd b)

  -- The command is restored at the end of a success only.
  unfoldable pub add_files : Option Bytes → Option Bytes → M W (Unit {0})
  unfolding create_container add_in_container
  add_files none dest b = (panicked, b)
  add_files (some orig) none b = (panicked, b)
  add_files (some orig) (some dest) b =
      let step = create_container o >>= add_in_container b.config.cmd orig dest in
      let nop = codes "#(nop) ADD " ++ (orig ++ (codes " in " ++ dest)) in
      (step >> restore_cmd b.config.cmd) (set_config_image (set_cmd (shell nop) b))

  abbrev pub add_parts : Bytes × Option Bytes → M W (Unit {0})
  add_parts (left, none) b = (err bad_format, b)
  add_parts (left, some right) b =
      add_files (replace_env_matches o (trim blanks left) b.config.env)
        (replace_env_matches o (trim blanks right) b.config.env) b

  unfoldable pub cmd_add : Bytes → M W (Unit {0})
  unfolding cut
  cmd_add args b = if is_empty b.context then (err no_context, b) else add_parts (cut b' ' args) b
