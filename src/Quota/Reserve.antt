-- ===== src/Quota/Reserve.antt =====
-- When `Reserve` refuses, and what the locks hold.
use docker_stuff.Base.{ℕ, ◌+◌, ◌-◌, ◌^◌, ◌≤◌, ◌<◌, ◌≡◌, List, ◌∷◌, none, some, Bytes, length, arith}
use docker_stuff.Quota.{Usage, available, refusal}

-- Below 2 ^ 63 the arithmetic of the machine is subtraction.
pub available_exact :
    (limit used : ℕ) → limit < 2 ^ 63 → used < 2 ^ 63 → available limit used ≡ limit - used
available_exact limit used l u = ground arith

-- What is not refused fits.
pub refusal-fits :
    (u : Usage) (i : Bytes) (items : List Bytes)
    → u.limit < 2 ^ 63
    → length u.items < 2 ^ 63
    → refusal (some u) (i ∷ items) ≡ none
    → length u.items + length (i ∷ items) ≤ u.limit
refusal-fits u i items l n e = ground (arith, available_exact u.limit (length u.items) l n)
