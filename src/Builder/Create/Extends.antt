-- ===== src/Builder/Create/Extends.antt =====
-- What a method of the builder may do to the configuration, and why it may panic.
use docker_stuff.Base.{
  if◌then◌else◌, ◌≡◌, ◌≢◌, refl, sym, ◌∙◌, Bool, true, false, ◌&&◌, List, [], ◌∷◌, ◌++◌, Option,
  none, some, Bytes, All,
}
use mathlib.Core.Path.{subst}
use docker_stuff.Text.Split.{cut}
use docker_stuff.Config.{Config, merge_env, add_env, or_items, has_env, env_key}
use docker_stuff.Config.Merge.Ports.{all_valid}
use docker_stuff.Config.Merge.{find_env, or_else}
use docker_stuff.Builder.{
  BuildFile, Outside, Result, ok, err, panicked, M, ◌>>=◌, after, call, check, result_of,
  outside_failed,
}

-- A list that is not empty is kept.
abbrev pub KeptList : {A : Type 0} → List A → List A → Type 0
KeptList xs ys = xs ≢ [] → ys ≡ xs

pub KeptList-refl : {A : Type 0} (xs : List A) → KeptList xs xs
KeptList-refl xs some_item = refl

KeptList-trans : {A : Type 0} (xs ys zs : List A) → KeptList xs ys → KeptList ys zs → KeptList xs zs
KeptList-trans xs ys zs p q some_item =
    let same = p some_item in q (λ e. some_item (sym same ∙ e)) ∙ same

pub or_items-KeptList : {A : Type 0} (user image : List A) → KeptList user (or_items user image)
or_items-KeptList [] image some_item = elim (some_item refl) [ ]
or_items-KeptList (x ∷ user) image some_item = refl

-- A variable with a value.
abbrev pub HasValue : Bytes → Type 0
HasValue e = (cut b'=' e).1 ≢ none

add_env-HasValue :
    (image user : List Bytes)
    → All HasValue image
    → All HasValue user
    → All HasValue (add_env image user)
unfolding add_env
add_env-HasValue [] user h k = k
add_env-HasValue (e ∷ image) user h k =
    add_env-HasValue image _ h.1 (one (has_env (env_key e) user))
  where
    at_end : (xs : List Bytes) → All HasValue xs → All HasValue (xs ++ e ∷ [])
    at_end [] all = (h.0, tt)
    at_end (x ∷ xs) all = (all.0, at_end xs all.1)

    one : (here : Bool) → All HasValue (if here then user else user ++ e ∷ [])
    one true = k
    one false = at_end user k

pub merge_env-HasValue :
    (user image : List Bytes)
    → All HasValue user
    → All HasValue image
    → All HasValue (merge_env user image)
unfolding merge_env
merge_env-HasValue [] image h k = k
merge_env-HasValue (e ∷ user) image h k = add_env-HasValue image (e ∷ user) k h

module _ {W : Type 0} (o : Outside W) where
  -- A configuration that `Create` may find in an image.
  abbrev pub IsImageConfig : Config → Type 0
  IsImageConfig image = (name : Bytes) × (w : W) × ((o.image_config name w).0 ≡ some (some image))

  -- Why a merge with an image's configuration panics: both have ports, and one is not valid.
  abbrev pub MergePanic : Type 0
  MergePanic =
      (user image : Config) × IsImageConfig image
      × (user.port_specs ≢ [])
      × (image.port_specs ≢ [])
      × ((all_valid user.port_specs && all_valid image.port_specs) ≡ false)

  -- All variables of all images have a value.
  abbrev pub Valued : Type 0
  Valued = (image : Config) → IsImageConfig image → All HasValue image.env

  -- The variable with a key is kept, and a new one is that of an image.
  abbrev pub Grows : Bytes → Option Bytes → Option Bytes → Type 0
  Grows k (some e) found = found ≡ some e
  Grows k none none = Unit {0}
  Grows k none (some e) = (image : Config) × IsImageConfig image × (find_env k image.env ≡ some e)

  pub Grows-refl : (k : Bytes) (x : Option Bytes) → Grows k x x
  Grows-refl k none = tt
  Grows-refl k (some e) = refl

  Grows-trans : (k : Bytes) (x y z : Option Bytes) → Grows k x y → Grows k y z → Grows k x z
  Grows-trans k (some e) y z p q = subst (λ (v : Option Bytes). Grows k v z) p q
  Grows-trans k none none z p q = q
  Grows-trans k none (some e) z p q = subst (λ (v : Option Bytes). Grows k none v) (sym q) p

  pub Grows-or_else :
      (k : Bytes) (image : Config)
      → IsImageConfig image
      → (x : Option Bytes) → Grows k x (or_else x (find_env k image.env))
  Grows-or_else k image h (some e) = refl
  Grows-or_else k image h none = go (find_env k image.env) refl
    where
      go : (y : Option Bytes) → find_env k image.env ≡ y → Grows k none y
      go none e = tt
      go (some v) e = (image, h, e)

  -- What `Create` keeps of a configuration: the texts and lists that are not empty, the variables,
  -- and that they have values.
  abbrev pub Extends : Config → Config → Type 0
  Extends c d =
      KeptList c.cmd d.cmd
      × KeptList c.user d.user
      × KeptList c.entrypoint d.entrypoint
      × KeptList c.working_dir d.working_dir
      × KeptList c.hostname d.hostname
      × ((k : Bytes) → Grows k (find_env k c.env) (find_env k d.env))
      × (Valued → All HasValue c.env → All HasValue d.env)

  pub Extends-refl : (c : Config) → Extends c c
  Extends-refl c = (
    KeptList-refl c.cmd,
    KeptList-refl c.user,
    KeptList-refl c.entrypoint,
    KeptList-refl c.working_dir,
    KeptList-refl c.hostname,
    (λ k. Grows-refl k (find_env k c.env)),
    λ valued h. h,
  )

  pub Extends-trans : (c d e : Config) → Extends c d → Extends d e → Extends c e
  Extends-trans c d e (cmd, user, entry, dir, host, env, values)
        (cmd', user', entry', dir', host', env', values') =
      (
        KeptList-trans c.cmd d.cmd e.cmd cmd cmd',
        KeptList-trans c.user d.user e.user user user',
        KeptList-trans c.entrypoint d.entrypoint e.entrypoint entry entry',
        KeptList-trans c.working_dir d.working_dir e.working_dir dir dir',
        KeptList-trans c.hostname d.hostname e.hostname host host',
        (λ k.
            Grows-trans k (find_env k c.env) (find_env k d.env) (find_env k e.env) (env k)
              (env' k)),
        λ valued h. values' valued (values valued h),
      )

  -- An outcome extends the configuration, or is the panic of a merge.
  abbrev pub Calm : {A : Type 0} → BuildFile W → Result A × BuildFile W → Type 0
  Calm b (ok a, b') = Extends b.config b'.config
  Calm b (err e, b') = Extends b.config b'.config
  Calm b (panicked, b') = MergePanic

  -- A method that is calm wherever it starts.
  abbrev pub Keeps : {A : Type 0} → M W A → Type 0
  Keeps m = (b : BuildFile W) → Calm b (m b)

  pub Calm-trans :
      {A : Type 0} (b c : BuildFile W) (t : Result A × BuildFile W)
      → Extends c.config b.config
      → Calm b t
      → Calm c t
  Calm-trans b c (ok a, b') e h = Extends-trans c.config b.config b'.config e h
  Calm-trans b c (err x, b') e h = Extends-trans c.config b.config b'.config e h
  Calm-trans b c (panicked, b') e h = h

  pub after-Calm :
      {A B : Type 0} (b : BuildFile W) (t : Result A × BuildFile W) (f : A → M W B)
      → Calm b t
      → ((a : A) (b' : BuildFile W) → Extends b.config b'.config → Calm b' (f a b'))
      → Calm b (after t.0 f t.1)
  after-Calm b (ok a, b') f h k = Calm-trans b' b (f a b') h (k a b' h)
  after-Calm b (err e, b') f h k = h
  after-Calm b (panicked, b') f h k = h

  pub >>=-Calm :
      {A B : Type 0} (m : M W A) (f : A → M W B) (b : BuildFile W)
      → Calm b (m b)
      → ((a : A) → Keeps (f a))
      → Calm b ((m >>= f) b)
  >>=-Calm m f b h k = after-Calm b (m b) f h (λ a b' e. k a b')

  pub result_of-Calm :
      {A : Type 0} (r : Option A) (b : BuildFile W) (w : W)
      → Calm b (result_of r, record b { world = w })
  result_of-Calm none b w = Extends-refl b.config
  result_of-Calm (some a) b w = Extends-refl b.config

  pub call-Keeps : {A : Type 0} (f : W → Option A × W) → Keeps (call f)
  call-Keeps f b = result_of-Calm (f b.world).0 b (f b.world).1

  checked-Calm :
      (good : Bool) (b : BuildFile W) (w : W)
      → Calm b (if good then ok tt else err outside_failed, record b { world = w })
  checked-Calm true b w = Extends-refl b.config
  checked-Calm false b w = Extends-refl b.config

  pub check-Keeps : (f : W → Bool × W) → Keeps (check f)
  check-Keeps f b = checked-Calm (f b.world).0 b (f b.world).1
