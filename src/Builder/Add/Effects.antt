-- ===== src/Builder/Add/Effects.antt =====
-- What `CmdAdd` leaves alone.
use docker_stuff.Base.{
  if◌then◌else◌, Bool, true, false, List, ◌++◌, Option, none, some, Bytes, codes,
}
use docker_stuff.Text.Trim.{has_prefix}
use docker_stuff.Builder.{
  Outside, err, FileKind, no_file, directory, plain_file, M, ◌>>=◌, effect, call, check,
  no_filename, forbidden_path,
}
use docker_stuff.Builder.Commit.{create_container, commit, deferring_unmount, is_empty}
use docker_stuff.Builder.Create.Extends.{Keeps, >>=-Calm, call-Keeps, check-Keeps, Extends-refl}
use docker_stuff.Builder.Commit.Frame.{
  create_container-Keeps, commit-Keeps, deferring_unmount-Keeps,
}
use docker_stuff.Builder.Add.{
  inject_into, inject_url, inject_file, add_remote, copy_unless, add_kind, add_context, add_source,
  add_mounted, add_in_container, filename_of, dest_in, ends_in_slash,
}

module _ {W : Type 0} (o : Outside W) where
  if-Keeps :
      {A : Type 0} (t : Bool) (m n : M W A)
      → Keeps o m
      → Keeps o n
      → Keeps o (λ b. if t then m b else n b)
  if-Keeps true m n h k = h
  if-Keeps false m n h k = k

  inject_url-Keeps :
      (id body dest : Bytes) (path : Option Bytes) → Keeps o (inject_url o id body dest path)
  inject_url-Keeps id body dest none b = Extends-refl o b.config
  inject_url-Keeps id body dest (some path) b =
      if-Keeps (is_empty (filename_of path)) (λ b'. (err no_filename, b'))
        (inject_into o id body (dest ++ filename_of path)) (λ b'. Extends-refl o b'.config)
        (check-Keeps o (o.inject id body (dest ++ filename_of path))) b

  inject_file-Keeps : (id orig dest body : Bytes) → Keeps o (inject_file o id orig dest body)
  inject_file-Keeps id orig dest body =
      if-Keeps (ends_in_slash dest) (inject_url o id body dest (o.url_path orig))
        (inject_into o id body dest) (inject_url-Keeps id body dest (o.url_path orig))
        (check-Keeps o (o.inject id body dest))

  add_remote-Keeps : (id orig dest : Bytes) → Keeps o (add_remote o id orig dest)
  unfolding add_remote
  add_remote-Keeps id orig dest b =
      >>=-Calm o (call (o.download orig)) (inject_file o id orig dest) b
        (call-Keeps o (o.download orig) b) (inject_file-Keeps id orig dest)

  copy_unless-Keeps : (untarred : Bool) (from to : Bytes) → Keeps o (copy_unless o untarred from to)
  copy_unless-Keeps true from to b = Extends-refl o b.config
  copy_unless-Keeps false from to b =
      let made = o.mkdir_all (o.dir_of to) in
      >>=-Calm o (check made) (λ _. check (o.copy_with_tar from to)) b (check-Keeps o made b)
        (λ _. check-Keeps o (o.copy_with_tar from to))

  add_kind-Keeps : (kind : FileKind) (from to : Bytes) → Keeps o (add_kind o kind from to)
  add_kind-Keeps no_file from to b = Extends-refl o b.config
  add_kind-Keeps directory from to b = check-Keeps o (o.copy_with_tar from to) b
  add_kind-Keeps plain_file from to b =
      >>=-Calm o (effect (o.untar_path from to)) (λ untarred. copy_unless o untarred from to) b
        (Extends-refl o b.config) (λ untarred. copy_unless-Keeps untarred from to)

  add_context-Keeps : (id orig dest : Bytes) → Keeps o (add_context o id orig dest)
  unfolding add_context
  add_context-Keeps id orig dest b =
      let from = o.join_path b.context orig in
      let kind = o.stat from b.world in
      let to = dest_in o id dest b in
      if-Keeps (has_prefix b.context from) (add_kind o kind from to)
        (λ b'. (err forbidden_path, b')) (add_kind-Keeps kind from to)
        (λ b'. Extends-refl o b'.config) b

  add_mounted-Keeps :
      (id : Bytes) (cmd : List Bytes) (orig dest : Bytes) → Keeps o (add_mounted o id cmd orig dest)
  unfolding add_mounted
  add_mounted-Keeps id cmd orig dest b =
      >>=-Calm o (add_source o id orig dest)
        (λ _. commit o id cmd (codes "ADD " ++ (orig ++ (codes " in " ++ dest)))) b
        (source (o.is_url orig) b)
        (λ _. commit-Keeps o id cmd (codes "ADD " ++ (orig ++ (codes " in " ++ dest))))
    where
      source :
          (url : Bool)
          → Keeps o (if url then add_remote o id orig dest else add_context o id orig dest)
      source true = add_remote-Keeps id orig dest
      source false = add_context-Keeps id orig dest

  add_in_container-Keeps :
      (cmd : List Bytes) (orig dest id : Bytes) → Keeps o (add_in_container o cmd orig dest id)
  unfolding add_in_container
  add_in_container-Keeps cmd orig dest id b =
      let m = deferring_unmount o id (add_mounted o id cmd orig dest) in
      >>=-Calm o (check (o.ensure_mounted id)) (λ _. m) b (check-Keeps o (o.ensure_mounted id) b)
        (λ _. deferring_unmount-Keeps o id _ (add_mounted-Keeps id cmd orig dest))

  -- The container of an ADD.
  pub add_step-Keeps :
      (cmd : List Bytes) (orig dest : Bytes)
      → Keeps o (create_container o >>= add_in_container o cmd orig dest)
  add_step-Keeps cmd orig dest b =
      >>=-Calm o (create_container o) (add_in_container o cmd orig dest) b
        (create_container-Keeps o b) (add_in_container-Keeps cmd orig dest)
