-- ===== src/Names.antt =====
-- Names and versions in dotcloud/docker/utils/utils.go: the kernel's release (`ParseRelease`,
-- `CompareKernelVersion`), the names of images with a tag (`ParseRepositoryTag`), and short
-- identifiers (`TruncateID`). Text is bytes.
pub mod Releases
pub mod Tags
pub mod TruncIndex
pub mod Examples
use docker_stuff.Base.{
  ℕ, zero, suc, ◌==◌, ltb, if◌then◌else◌, Bool, true, false, List, [], ◌∷◌, ◌++◌, Option, none,
  some, Bytes, length, take,
}
use docker_stuff.Text.Decimal.{itoa, parse_uint}
use docker_stuff.Text.Split.{split, cut, contains_byte}

-- An `int` of a release is never negative: `ParseRelease` reads what stands before a dash.
pub record KernelVersionInfo : Type 0 where
  pub kernel : ℕ
  pub major : ℕ
  pub minor : ℕ
  pub flavor : Bytes

-- The results -1, 0 and 1
pub data Compared : Type 0 where
  before same after : Compared

abbrev pub compare_number : ℕ → ℕ → Compared → Compared
compare_number a b rest = if ltb a b then before else if ltb b a then after else rest

unfoldable pub compare_kernel_version : KernelVersionInfo → KernelVersionInfo → Compared
compare_kernel_version a b =
    compare_number a.kernel b.kernel
      (compare_number a.major b.major (compare_number a.minor b.minor same))

-- `strconv.Atoi`, for a text without a dash.
unfoldable pub atoi : Bytes → Option ℕ
atoi [] = none
atoi (c ∷ s) = if c == b'+' then parse_uint 63 s else parse_uint 63 (c ∷ s)

-- `strings.Trim(s, "+")`
unfoldable pub trim_front : Bytes → Bytes
trim_front [] = []
trim_front (c ∷ s) = let rest = trim_front s in if c == b'+' then rest else c ∷ s

unfoldable pub trim_back : Bytes → Bytes
trim_back [] = []
trim_back (c ∷ s) = elim (trim_back s) [ [] ↦ if c == b'+' then [] else c ∷ [] | d ∷ t ↦ c ∷ d ∷ t ]

abbrev pub then_parse {ℓ κ} : {A : Type ℓ} {B : Type κ} → Option A → (A → Option B) → Option B
then_parse none f = none
then_parse (some a) f = f a

-- The three numbers: those that are missing are 0, and what is behind the third is not read.
unfoldable pub parse_numbers : List Bytes → Option (ℕ × ℕ × ℕ)
parse_numbers [] = some (0, 0, 0)
parse_numbers (k ∷ []) = then_parse (atoi k) (λ kernel. some (kernel, 0, 0))
parse_numbers (k ∷ m ∷ []) =
    then_parse (atoi k) (λ kernel. then_parse (atoi m) (λ major. some (kernel, major, 0)))
parse_numbers (k ∷ m ∷ n ∷ parts) = then_parse (atoi k) (λ kernel.
    then_parse (atoi m) (λ major.
      then_parse (atoi (trim_back (trim_front n))) (λ minor. some (kernel, major, minor))))

abbrev pub flavor_of : Option Bytes → Bytes
flavor_of none = []
flavor_of (some f) = f

unfoldable pub parse_release : Bytes → Option KernelVersionInfo
parse_release release =
    let (numbers, flavor) = cut b'-' release in
    then_parse (parse_numbers (split b'.' numbers))
      (λ n. some (record { kernel = n.0; major = n.1; minor = n.2; flavor = flavor_of flavor }))

-- `KernelVersionInfo.String`
unfoldable pub print_release : KernelVersionInfo → Bytes
print_release k =
    (itoa k.kernel ++ b'.' ∷ (itoa k.major ++ b'.' ∷ itoa k.minor))
    ++ (elim k.flavor [ [] ↦ [] | c ∷ f ↦ b'-' ∷ c ∷ f ])

-- The text before and after the last separator, by `strings.LastIndex`.
unfoldable pub cut_last : ℕ → Bytes → Option (Bytes × Bytes)
cut_last b [] = none
cut_last b (c ∷ s) = elim (cut_last b s) [
  | some parts ↦ some (c ∷ parts.0, parts.1)
  | none ↦ if c == b then some ([], s) else none
]

unfoldable pub parse_repository_tag : Bytes → Bytes × Bytes
parse_repository_tag repos = elim (cut_last b':' repos) [
  | none ↦ (repos, [])
  | some parts ↦ if contains_byte b'/' parts.1 then (repos, []) else parts
]

unfoldable pub truncate_id : Bytes → Bytes
truncate_id id = let short_len = if ltb (length id) 12 then length id else 12 in take short_len id
