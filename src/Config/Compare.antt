-- ===== src/Config/Compare.antt =====
-- What `CompareConfig` compares.
use docker_stuff.Base.{
  ◌==◌, if◌then◌else◌, ◌≡◌, ◌↔◌, ◌⊎◌, refl, sym, Bool, true, false, not, ◌&&◌, ◌||◌, List, [], ◌∷◌,
  some, Bytes, length, arith, Bool-cases, inl, inr,
}
use docker_stuff.Text.Split.{eq_bytes, eq_bytes_iff}
use docker_stuff.Config.{
  Config, eq_bool, has_volume, same_items, all_volumes, same_values, same_lengths, compare_config,
}

-- Lists of one length with the same items are equal.
same_items_iff : (a b : List Bytes) → ((length a == length b) && same_items a b ≡ true) ↔ (a ≡ b)
unfolding same_items
same_items_iff [] [] = ground arith
same_items_iff [] (y ∷ b) = ground arith
same_items_iff (x ∷ a) [] = ground arith
same_items_iff (x ∷ a) (y ∷ b) = ground (arith, eq_bytes_iff x y, same_items_iff a b)

eq_bool_iff : (a b : Bool) → (eq_bool a b ≡ true) ↔ (a ≡ b)
eq_bool_iff true b = ground arith
eq_bool_iff false b = ground arith

eq_bytes_refl : (s : Bytes) → eq_bytes s s ≡ true
eq_bytes_refl s = (eq_bytes_iff s s).1 refl

and_iff : (p q : Bool) → ((p && q) ≡ true) ↔ ((p ≡ true) × (q ≡ true))
and_iff p q = ground arith

has_volume-cons :
    (v w : Bytes) (a : List Bytes) → has_volume v (w ∷ a) ≡ true → (w ≡ v) ⊎ (has_volume v a ≡ true)
unfolding has_volume
has_volume-cons v w a h = elim (Bool-cases (eq_bytes w v)) [
  | inl e ↦ inl ((eq_bytes_iff w v).0 e)
  | inr e ↦ inr (ground arith)
]

all_volumes_iff :
    (a b : List Bytes)
    → (all_volumes a b ≡ true) ↔ ((v : Bytes) → has_volume v a ≡ true → has_volume v b ≡ true)
unfolding all_volumes has_volume
all_volumes_iff [] b = (λ h v hv. cc, λ f. refl)
all_volumes_iff (w ∷ a) b =
    let ih = all_volumes_iff a b in
    (
      λ h v hv. elim (has_volume-cons v w a hv) [
        | inl e ↦ rw (sym e) ((and_iff _ _).0 h).0
        | inr later ↦ ih.0 ((and_iff _ _).0 h).1 v later
      ],
      λ f. (and_iff _ _).1 (f w (rw (eq_bytes_refl w) refl), ih.1 (λ v hv. f v (ground arith))),
    )

-- What two configurations have in common: the containers' hosts, domains, images and the use of
-- `stdin` may differ, the volumes are as many and those of the first one are among the second's.
pub record Same (a b : Config) : Type 0 where
  pub no_stdin : (a.open_stdin || b.open_stdin) ≡ false
  pub streams :
      (a.attach_stdout ≡ b.attach_stdout) × (a.attach_stderr ≡ b.attach_stderr) × (a.tty ≡ b.tty)
  pub user : a.user ≡ b.user
  pub limits :
      (a.memory ≡ b.memory) × (a.memory_swap ≡ b.memory_swap) × (a.cpu_shares ≡ b.cpu_shares)
  pub command : (a.cmd ≡ b.cmd) × (a.entrypoint ≡ b.entrypoint) × (a.env ≡ b.env)
  pub net : (a.dns ≡ b.dns) × (a.port_specs ≡ b.port_specs)
  pub volumes_from : a.volumes_from ≡ b.volumes_from
  pub volume_count : length a.volumes ≡ length b.volumes
  pub volume_keys : (v : Bytes) → has_volume v a.volumes ≡ true → has_volume v b.volumes ≡ true

guards_iff :
    (p v l r : Bool)
    → ((if p then false else if not v then false else if not l then false else r) ≡ true)
      ↔ ((p ≡ false) × (v ≡ true) × (l ≡ true) × (r ≡ true))
guards_iff p v l r = ground arith

values_iff :
    (a b : Config)
    → (same_values a b ≡ true) ↔ (
        (a.attach_stdout ≡ b.attach_stdout)
        × (a.attach_stderr ≡ b.attach_stderr)
        × (a.user ≡ b.user)
        × (a.memory ≡ b.memory)
        × (a.memory_swap ≡ b.memory_swap)
        × (a.cpu_shares ≡ b.cpu_shares)
        × (a.open_stdin ≡ b.open_stdin)
        × (a.tty ≡ b.tty)
        × (a.volumes_from ≡ b.volumes_from))
unfolding same_values
values_iff a b = ground (
  arith,
  eq_bool_iff a.attach_stdout b.attach_stdout,
  eq_bool_iff a.attach_stderr b.attach_stderr,
  eq_bytes_iff a.user b.user,
  eq_bool_iff a.open_stdin b.open_stdin,
  eq_bool_iff a.tty b.tty,
  eq_bytes_iff a.volumes_from b.volumes_from,
)

abbrev items_agree : Config → Config → Bool
items_agree a b =
    same_items a.cmd b.cmd
    && same_items a.dns b.dns
    && same_items a.env b.env
    && same_items a.port_specs b.port_specs
    && same_items a.entrypoint b.entrypoint
    && all_volumes a.volumes b.volumes

lists_iff :
    (a b : Config)
    → ((same_lengths a b ≡ true) × (items_agree a b ≡ true)) ↔ (
        (a.cmd ≡ b.cmd)
        × (a.dns ≡ b.dns)
        × (a.env ≡ b.env)
        × (a.port_specs ≡ b.port_specs)
        × (a.entrypoint ≡ b.entrypoint)
        × (length a.volumes ≡ length b.volumes)
        × (all_volumes a.volumes b.volumes ≡ true))
unfolding same_lengths
lists_iff a b = ground (
  arith,
  same_items_iff a.cmd b.cmd,
  same_items_iff a.dns b.dns,
  same_items_iff a.env b.env,
  same_items_iff a.port_specs b.port_specs,
  same_items_iff a.entrypoint b.entrypoint,
)

stdin_eq : (p q : Bool) → (p || q) ≡ false → p ≡ q
stdin_eq p q h = ground arith

-- CompareConfig says yes to two configurations exactly if neither opens stdin, their streams,
-- users, limits, commands, environments, servers, ports and sources of volumes are equal, their
-- volumes are as many, and those of the first are among the second's.
pub compare_config_iff : (a b : Config) → (compare_config (some a) (some b) ≡ true) ↔ Same a b
unfolding compare_config
compare_config_iff a b = (
  λ h.
      let (stdin, v, l, i) = (guards_iff _ _ _ _).0 h in
      let (out, error, user, memory, swap, cpu, in_, tty, from) = (values_iff a b).0 v in
      let (cmd, dns, env, specs, entry, count, keys) = (lists_iff a b).0 (l, i) in
      record {
        no_stdin = stdin;
        streams = (out, error, tty);
        user = user;
        limits = (memory, swap, cpu);
        command = (cmd, entry, env);
        net = (dns, specs);
        volumes_from = from;
        volume_count = count;
        volume_keys = (all_volumes_iff _ _).0 keys;
      },
  λ s.
      let ins : a.open_stdin ≡ b.open_stdin = stdin_eq a.open_stdin b.open_stdin s.no_stdin in
      let values = (values_iff a b).1 (
        s.streams.0, s.streams.1, s.user, s.limits.0, s.limits.1, s.limits.2, ins, s.streams.2,
        s.volumes_from,
      ) in
      let lists = (lists_iff a b).1 (
        s.command.0,
        s.net.0,
        s.command.2,
        s.net.1,
        s.command.1,
        s.volume_count,
        (all_volumes_iff _ _).1 s.volume_keys,
      ) in
      (guards_iff _ _ _ _).1 (s.no_stdin, values, lists.0, lists.1),
)
