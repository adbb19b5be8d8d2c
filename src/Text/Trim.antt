-- ===== src/Text/Trim.antt =====
-- `strings.Trim`, `strings.HasPrefix`, `strings.ToLower`, `strings.Replace` and `strings.Join`, on bytes.
use docker_stuff.Base.{
  ℕ, zero, suc, ◌+◌, ◌-◌, ◌==◌, leb, Bool, true, false, ◌&&◌, ◌||◌, List, [], ◌∷◌, ◌++◌,
  if◌then◌else◌, Bytes, length,
}

-- The bytes of a cutset.
unfoldable pub in_set : Bytes → ℕ → Bool
in_set [] c = false
in_set (d ∷ set) c = d == c || in_set set c

unfoldable pub trim_left : Bytes → Bytes → Bytes
trim_left set [] = []
trim_left set (c ∷ s) = let rest = trim_left set s in if in_set set c then rest else c ∷ s

unfoldable pub trim_right : Bytes → Bytes → Bytes
trim_right set [] = []
trim_right set (c ∷ s) = elim (trim_right set s) [
  | [] ↦ if in_set set c then [] else c ∷ []
  | d ∷ t ↦ c ∷ d ∷ t
]

unfoldable pub trim : Bytes → Bytes → Bytes
unfolding in_set trim_left trim_right
trim set s = trim_right set (trim_left set s)

unfoldable pub has_prefix : Bytes → Bytes → Bool
has_prefix [] s = true
has_prefix (p ∷ prefix) [] = false
has_prefix (p ∷ prefix) (c ∷ s) = p == c && has_prefix prefix s

-- The ASCII letters; no other letter stands in a name that the code compares with.
unfoldable pub lower : ℕ → ℕ
lower c = if leb b'A' c && leb c b'Z' then c + 32 else c

unfoldable pub to_lower : Bytes → Bytes
unfolding lower
to_lower [] = []
to_lower (c ∷ s) = lower c ∷ to_lower s

-- `Replace(s, old, new, -1)` for an `old` that is not empty: `skip` bytes of a match are left.
unfoldable pub replace_from : ℕ → Bytes → Bytes → Bytes → Bytes
unfolding has_prefix
replace_from skip old new [] = []
replace_from (suc skip) old new (c ∷ s) = replace_from skip old new s
replace_from zero old new (c ∷ s) =
    let found = new ++ replace_from (length old - 1) old new s in
    let more = c ∷ replace_from zero old new s in if has_prefix old (c ∷ s) then found else more

unfoldable pub replace_all : Bytes → Bytes → Bytes → Bytes
unfolding replace_from
replace_all old new s = replace_from 0 old new s

unfoldable pub join : Bytes → List Bytes → Bytes
join sep [] = []
join sep (p ∷ []) = p
join sep (p ∷ q ∷ ps) = p ++ (sep ++ join sep (q ∷ ps))
