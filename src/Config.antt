-- ===== src/Config.antt =====
-- `CompareConfig`, `MergeConfig` and the options of LXC in dotcloud/docker/utils.go. A string is the
-- list of its bytes; a `nil` slice and an empty one, which the code treats alike, are both `[]`;
-- a map of volumes is the list of its keys. An `int64` is its bit pattern.
pub mod Compare
pub mod Merge
pub mod Examples
use docker_stuff.Base.{
  ℕ, zero, suc, ◌==◌, if◌then◌else◌, Bool, true, false, not, ◌&&◌, ◌||◌, List, [], ◌∷◌, ◌++◌,
  Option, none, some, Bytes, length, codes, ltb, leb,
}
use docker_stuff.Text.Split.{split, cut, eq_bytes}
use docker_stuff.Network.PortMapper.{eq_proto}
use docker_stuff.Network.NatSpec.{Nat, NatResult, ok, err, parse_nat}

pub record Config : Type 0 where
  pub hostname : Bytes
  pub domainname : Bytes
  pub user : Bytes
  pub memory : ℕ
  pub memory_swap : ℕ
  pub cpu_shares : ℕ
  pub attach_stdin : Bool
  pub attach_stdout : Bool
  pub attach_stderr : Bool
  pub port_specs : List Bytes
  pub tty : Bool
  pub open_stdin : Bool
  pub stdin_once : Bool
  pub env : List Bytes
  pub cmd : List Bytes
  pub dns : List Bytes
  pub image : Bytes
  pub volumes : List Bytes
  pub volumes_from : Bytes
  pub working_dir : Bytes
  pub entrypoint : List Bytes
  pub network_disabled : Bool
  pub privileged : Bool

-- `==` on booleans
abbrev pub eq_bool : Bool → Bool → Bool
eq_bool true b = b
eq_bool false b = not b

unfoldable pub has_volume : Bytes → List Bytes → Bool
has_volume v [] = false
has_volume v (w ∷ ws) = eq_bytes w v || has_volume v ws

-- A loop over the indices of the first list. The lengths agree where it runs: that the second one
-- ends before would be a panic.
unfoldable pub same_items : List Bytes → List Bytes → Bool
same_items [] b = true
same_items (x ∷ a) [] = false
same_items (x ∷ a) (y ∷ b) = eq_bytes x y && same_items a b

unfoldable pub all_volumes : List Bytes → List Bytes → Bool
all_volumes [] b = true
all_volumes (v ∷ a) b = has_volume v b && all_volumes a b

unfoldable pub same_values : Config → Config → Bool
same_values a b =
    eq_bool a.attach_stdout b.attach_stdout
    && eq_bool a.attach_stderr b.attach_stderr
    && eq_bytes a.user b.user
    && a.memory == b.memory
    && a.memory_swap == b.memory_swap
    && a.cpu_shares == b.cpu_shares
    && eq_bool a.open_stdin b.open_stdin
    && eq_bool a.tty b.tty
    && eq_bytes a.volumes_from b.volumes_from

unfoldable pub same_lengths : Config → Config → Bool
same_lengths a b =
    length a.cmd == length b.cmd
    && length a.dns == length b.dns
    && length a.env == length b.env
    && length a.port_specs == length b.port_specs
    && length a.entrypoint == length b.entrypoint
    && length a.volumes == length b.volumes

-- `none` is the `nil` pointer.
unfoldable pub compare_config : Option Config → Option Config → Bool
compare_config (some a) (some b) =
    if a.open_stdin || b.open_stdin
    then false
    else if not (same_values a b)
    then false
    else if not (same_lengths a b)
    then false
    else same_items a.cmd b.cmd
      && same_items a.dns b.dns
      && same_items a.env b.env
      && same_items a.port_specs b.port_specs
      && same_items a.entrypoint b.entrypoint
      && all_volumes a.volumes b.volumes
compare_config _ _ = false

-- The text before the first equals sign: `Split` gives one part at least.
unfoldable pub env_key : Bytes → Bytes
env_key s = elim (split b'=' s) [ [] ↦ [] | p ∷ ps ↦ p ]

unfoldable pub has_env : Bytes → List Bytes → Bool
has_env k [] = false
has_env k (e ∷ env) = if eq_bytes k (env_key e) then true else has_env k env

-- The loop over the variables of the image, with those of the user so far.
unfoldable pub add_env : List Bytes → List Bytes → List Bytes
add_env [] user = user
add_env (e ∷ image) user = add_env image (if has_env (env_key e) user then user else user ++ e ∷ [])

unfoldable pub merge_env : List Bytes → List Bytes → List Bytes
merge_env [] image = image
merge_env (e ∷ user) image = add_env image (e ∷ user)

-- Whether two specs are of one protocol and backend. The errors of `parseNat` are dropped: a spec
-- that it refuses is a nil pointer, whose fields panic, which is `none`.
unfoldable pub same_backend : NatResult Nat → NatResult Nat → Option Bool
same_backend (ok n) (ok m) = some (eq_proto n.proto m.proto && n.backend == m.backend)
same_backend _ _ = none

-- The inner loop: it runs to the end, whatever it finds.
unfoldable pub has_backend : Bytes → List Bytes → Option Bool
has_backend spec [] = some false
has_backend spec (u ∷ user) =
    let rest = has_backend spec user in
    elim (same_backend (parse_nat spec) (parse_nat u)) [
      | none ↦ none
      | some here ↦ elim rest [ none ↦ none | some found ↦ some (here || found) ]
    ]

unfoldable pub add_ports : List Bytes → List Bytes → Option (List Bytes)
add_ports [] user = some user
add_ports (spec ∷ image) user = elim (has_backend spec user) [
  | none ↦ none
  | some found ↦ add_ports image (if found then user else user ++ spec ∷ [])
]

unfoldable pub merge_ports : List Bytes → List Bytes → Option (List Bytes)
merge_ports [] image = some image
merge_ports (u ∷ user) image = add_ports image (u ∷ user)

-- A text, a number or a list of the user, or that of the image if it is empty or zero.
abbrev pub or_items {ℓ} : {A : Type ℓ} → List A → List A → List A
or_items [] image = image
or_items (x ∷ user) image = x ∷ user

abbrev pub or_number : ℕ → ℕ → ℕ
or_number user image = if user == 0 then image else user

-- `userConf.Volumes[k] = v`, for every volume of the image.
unfoldable pub add_volumes : List Bytes → List Bytes → List Bytes
add_volumes [] user = user
add_volumes (v ∷ image) user =
    add_volumes image (if has_volume v user then user else user ++ v ∷ [])

abbrev pub or_dns : List Bytes → List Bytes → List Bytes
or_dns [] image = image
or_dns (x ∷ user) image = (x ∷ user) ++ image

-- The new value of `userConf`; `none` is a panic. The source's volumes may be the image's own map if
-- the user has none.
unfoldable pub merge_config : Config → Config → Option Config
merge_config user image = elim (merge_ports user.port_specs image.port_specs) [
  | none ↦ none
  | some specs ↦ some (record user {
    user = or_items user.user image.user;
    memory = or_number user.memory image.memory;
    memory_swap = or_number user.memory_swap image.memory_swap;
    cpu_shares = or_number user.cpu_shares image.cpu_shares;
    port_specs = specs;
    tty = user.tty || image.tty;
    open_stdin = user.open_stdin || image.open_stdin;
    stdin_once = user.stdin_once || image.stdin_once;
    env = merge_env user.env image.env;
    cmd = or_items user.cmd image.cmd;
    dns = or_dns user.dns image.dns;
    entrypoint = or_items user.entrypoint image.entrypoint;
    working_dir = or_items user.working_dir image.working_dir;
    volumes_from = or_items user.volumes_from image.volumes_from;
    volumes = elim user.volumes [
      | [] ↦ image.volumes
      | v ∷ vs ↦ add_volumes image.volumes (v ∷ vs)
    ];
  })
]
