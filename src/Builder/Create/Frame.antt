-- ===== src/Builder/Create/Frame.antt =====
-- What `Create` leaves of a configuration, and where it panics.
use docker_stuff.Base.{
  ◌≡◌, refl, sym, ap, ◌∙◌, Bool, true, false, Option, none, some, Bytes, Option-cases, inl, inr,
  take,
}
use mathlib.Core.Path.{subst}
use docker_stuff.Config.{Config, merge_config, merge_ports}
use docker_stuff.Config.Merge.Ports.{ports_panic}
use docker_stuff.Config.Merge.{find_env, find_env-merge_env}
use docker_stuff.Builder.{BuildFile, Outside, ◌>>=◌, ◌>>◌, pure, after, effect, result_of}
use docker_stuff.Builder.Create.{
  has_command, put_merged, merge_into, command_or_error, check_command, name_host, make_named,
  make_with, create_from, create,
}
use docker_stuff.Builder.Create.Extends.{
  KeptList-refl, or_items-KeptList, merge_env-HasValue, IsImageConfig, Grows, Grows-refl,
  Grows-or_else, Extends, Extends-refl, Calm, Keeps, Calm-trans, >>=-Calm, check-Keeps,
}

module _ {W : Type 0} (o : Outside W) where
  put_merged-Calm :
      (image : Config) (b : BuildFile W)
      → IsImageConfig o image
      → Calm o b (put_merged (merge_config b.config image) b)
  unfolding merge_config
  put_merged-Calm image b h =
      let c = b.config in
      elim (Option-cases (merge_ports c.port_specs image.port_specs)) [
        | inl e ↦
            rw (e, merge_config)
              (let (some_user, some_image, bad) = ports_panic c.port_specs image.port_specs e in
                (c, image, h, some_user, some_image, bad))
        | inr (specs, e) ↦
            rw (e, merge_config)
              (
                or_items-KeptList c.cmd image.cmd,
                or_items-KeptList c.user image.user,
                or_items-KeptList c.entrypoint image.entrypoint,
                or_items-KeptList c.working_dir image.working_dir,
                KeptList-refl c.hostname,
                (λ k.
                    subst (Grows o k (find_env k c.env))
                      (sym (find_env-merge_env k c.env image.env))
                      (Grows-or_else o k image h (find_env k c.env))),
                λ valued all. merge_env-HasValue c.env image.env all (valued image h),
              )
      ]

  merge_into-Calm :
      (image : Option Config) (b : BuildFile W)
      → ((c : Config) → image ≡ some c → IsImageConfig o c)
      → Calm o b (merge_into image b)
  merge_into-Calm none b h = Extends-refl o b.config
  merge_into-Calm (some c) b h = put_merged-Calm c b (h c refl)

  check_command-Keeps : Keeps o check_command
  check_command-Keeps b = go (has_command b.config.entrypoint b.config.cmd)
    where
      go : (there : Bool) → Calm o b (command_or_error there b)
      go true = Extends-refl o b.config
      go false = Extends-refl o b.config

  name_host-Extends : (id : Bytes) (b : BuildFile W) → Extends o b.config (name_host id b).config
  name_host-Extends id b = (
    KeptList-refl b.config.cmd,
    KeptList-refl b.config.user,
    KeptList-refl b.config.entrypoint,
    KeptList-refl b.config.working_dir,
    or_items-KeptList b.config.hostname (take 12 id),
    (λ k. Grows-refl o k (find_env k b.config.env)),
    λ valued h. h,
  )

  make_with-Keeps : (id : Bytes) → Keeps o (make_with o id)
  make_with-Keeps id b =
      let b1 = name_host id b in
      Calm-trans o b1 b ((make_named o id >> pure id) b1) (name_host-Extends id b) (
        >>=-Calm o (make_named o id) (λ _. pure id) b1
          (check-Keeps o (o.make_container id b1.config) b1) (λ _ b2. Extends-refl o b2.config))

  create_from-Calm :
      (image : Option Config) (b : BuildFile W)
      → ((c : Config) → image ≡ some c → IsImageConfig o c)
      → Calm o b (create_from o image b)
  create_from-Calm image b h =
      let named = effect o.generate_id >>= make_with o in
      >>=-Calm o (merge_into image) (λ _. check_command >> named) b (merge_into-Calm image b h)
        (λ _ b1.
          >>=-Calm o check_command (λ _. named) b1 (check_command-Keeps b1)
            (λ _ b2.
              >>=-Calm o (effect o.generate_id) (make_with o) b2 (Extends-refl o b2.config)
                make_with-Keeps))

  -- `Create` panics only in the merge.
  pub create-Keeps : Keeps o (create o)
  unfolding create
  create-Keeps b = go (o.image_config b.config.image b.world).0 refl
    where
      b1 : BuildFile W
      b1 = record b { world = (o.image_config b.config.image b.world).1 }

      go :
          (found : Option (Option Config))
          → (o.image_config b.config.image b.world).0 ≡ found
          → Calm o b (after (result_of found) (create_from o) b1)
      go none e = Extends-refl o b.config
      go (some image) e =
          create_from-Calm image b1 (λ c same. (b.config.image, b.world, e ∙ ap some same))
