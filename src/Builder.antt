-- ===== src/Builder.antt =====
-- `buildFile` of dotcloud/docker/buildfile.go: its state, and what the builder calls of the runtime,
-- of the server and of the file system (`Outside`, over a world of any type). A method is an `M`: it
-- takes the builder and returns a result and the builder, also after an error. The text written to
-- `out` is left out.
pub mod Create
pub mod Commit
pub mod Env
pub mod Add
pub mod Instructions
pub mod Dockerfile
pub mod Examples
use docker_stuff.Base.{
  ℕ, ◌==◌, if◌then◌else◌, Bool, true, false, ◌||◌, List, [], ◌∷◌, ◌++◌, Option, none, some, Bytes,
  codes,
}
use docker_stuff.Text.Split.{has_text}
use docker_stuff.Config.{Config}

pub data BuildError : Type 0 where
  no_source : BuildError
  no_context : BuildError
  no_dockerfile : BuildError
  no_container : BuildError
  no_filename : BuildError
  no_image : BuildError
  bad_format : BuildError
  deprecated : BuildError
  empty_argument : BuildError
  forbidden_path : BuildError
  no_such_file : BuildError
  non_zero_code : ℕ → BuildError
  outside_failed : BuildError

-- `panicked` is an index out of range or a nil pointer.
pub data Result (A : Type 0) : Type 0 where
  ok : A → Result A
  err : BuildError → Result A
  panicked : Result A

-- The builder over the rest `world` of the daemon. The sets of identifiers are lists.
pub record BuildFile (W : Type 0) : Type 0 where
  pub image : Bytes
  pub maintainer : Bytes
  pub config : Config
  pub context : Bytes
  pub verbose : Bool
  pub utilize_cache : Bool
  pub rm : Bool
  pub tmp_containers : List Bytes
  pub tmp_images : List Bytes
  pub world : W

-- `LookupImage`: `missing` is an error for which `IsNotExist` holds.
pub data Lookup : Type 0 where
  found : Bytes → Lookup
  missing : Lookup
  failed : Lookup

-- `os.Stat`
pub data FileKind : Type 0 where
  no_file directory plain_file : FileKind

pub data Source : Type 0 where
  absent unreadable : Source
  text : Bytes → Source

-- What the builder calls. An error is `none` or `false`.
pub record Outside (W : Type 0) : Type 0 where
  pub lookup_image : Bytes → W → Lookup × W
  pub image_pull : Bytes → Bytes → W → Bool × W
  pub image_get_cached : Bytes → Config → W → Option (Option Bytes) × W
  -- What `Create` calls: the look-up of an image, with the image's configuration if it has one; a
  -- random identifier; and the steps behind the changes of the configuration, from `Mkdir` on. The
  -- container keeps a pointer to the configuration, which is passed here as it then is.
  pub image_config : Bytes → W → Option (Option Config) × W
  pub generate_id : W → Bytes × W
  pub make_container : Bytes → Config → W → Bool × W
  pub get : Bytes → W → Bool
  pub ensure_mounted : Bytes → W → Bool × W
  pub unmount : Bytes → W → W
  pub start : Bytes → Bytes → List Bytes → W → Bool × W
  pub attach : Bytes → W → Bool × W
  pub wait : Bytes → W → ℕ × W
  pub commit_container : Bytes → Bytes → Config → W → Option Bytes × W
  pub destroy : Bytes → W → W
  pub download : Bytes → W → Option Bytes × W
  pub inject : Bytes → Bytes → Bytes → W → Bool × W
  pub rootfs : Bytes → W → Bytes
  pub stat : Bytes → W → FileKind
  pub copy_with_tar : Bytes → Bytes → W → Bool × W
  pub untar_path : Bytes → Bytes → W → Bool × W
  pub mkdir_all : Bytes → W → Bool × W
  pub temp_dir : W → Option Bytes × W
  pub untar : Bytes → W → Bool × W
  pub read_dockerfile : Bytes → W → Source
  pub remove_all : Bytes → W → W
  -- `json.Unmarshal` into a list of strings
  pub unmarshal : Bytes → Option (List Bytes)
  -- the matches of the regular expression for variables
  pub env_matches : Bytes → List Bytes
  -- the text with its continued lines joined
  pub join_lines : Bytes → Bytes
  -- `path.Join`, `path.Dir`, `utils.IsURL`, and the path of `url.Parse`
  pub join_path : Bytes → Bytes → Bytes
  pub dir_of : Bytes → Bytes
  pub is_url : Bytes → Bool
  pub url_path : Bytes → Option Bytes

abbrev pub M : Type 0 → Type 0 → Type 0
M W A = BuildFile W → Result A × BuildFile W

abbrev pub result_of : {A : Type 0} → Option A → Result A
result_of none = err outside_failed
result_of (some a) = ok a

module _ {W : Type 0} where
  abbrev pub pure : {A : Type 0} → A → M W A
  pure a b = (ok a, b)

  abbrev pub raise : {A : Type 0} → BuildError → M W A
  raise e b = (err e, b)

  abbrev pub panic : {A : Type 0} → M W A
  panic b = (panicked, b)

  abbrev pub modify : (BuildFile W → BuildFile W) → M W (Unit {0})
  modify f b = (ok tt, f b)

  -- Calls of the outside: that cannot fail, that may fail, and that return an error or `nil`.
  abbrev pub effect : {A : Type 0} → (W → A × W) → M W A
  effect f b = let (a, w) = f b.world in (ok a, record b { world = w })

  abbrev pub call : {A : Type 0} → (W → Option A × W) → M W A
  call f b = let (a, w) = f b.world in (result_of a, record b { world = w })

  abbrev pub check : (W → Bool × W) → M W (Unit {0})
  check f b =
      let (good, w) = f b.world in
      (if good then ok tt else err outside_failed, record b { world = w })

  abbrev pub after : {A B : Type 0} → Result A → (A → M W B) → M W B
  after (ok a) f b = f a b
  after (err e) f b = (err e, b)
  after panicked f b = (panicked, b)

  infixl 5 ◌>>=◌ ◌>>◌
  abbrev pub ◌>>=◌ : {A B : Type 0} → M W A → (A → M W B) → M W B
  ◌>>=◌ m f b = let (r, b') = m b in after r f b'

  abbrev pub ◌>>◌ : {B : Type 0} → M W (Unit {0}) → M W B → M W B
  m >> k = m >>= λ _. k

-- `m[k] = struct{}{}`
unfoldable pub add_id : Bytes → List Bytes → List Bytes
unfolding has_text
add_id k ids = if has_text k ids then ids else k ∷ ids
