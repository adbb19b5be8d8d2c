-- ===== src/Names/Releases.antt =====
-- The order of kernel versions, and their text.
use docker_stuff.Base.{
  ℕ, ◌^◌, ◌<◌, ◌≡◌, ◌≢◌, ◌↔◌, refl, ap, ◌∙◌, List, [], ◌∷◌, ◌++◌, Option, none, some, Bytes, arith,
  All-append, append-nil,
}
use docker_stuff.Text.Decimal.{
  itoa, parse_uint, parse_uint-itoa, itoa-IsDigit, itoa-ne-nil, digits-Lacks,
}
use docker_stuff.Text.Split.{split, cut, cut_at, split_at, split_lacking, Lacks}
use docker_stuff.Names.{
  KernelVersionInfo, before, same, after, compare_kernel_version, atoi, trim_front, trim_back,
  parse_numbers, flavor_of, parse_release, print_release,
}

-- The three numbers agree.
abbrev pub SameNumbers : KernelVersionInfo → KernelVersionInfo → Type 0
SameNumbers a b = (a.kernel ≡ b.kernel) × (a.major ≡ b.major) × (a.minor ≡ b.minor)

-- CompareKernelVersion is an order on the three numbers: it gives 0 exactly if they agree, -1
-- exactly if it gives 1 the other way round, and -1 is transitive.
compare_kernel_version_order :
    (a b c : KernelVersionInfo)
    → ((compare_kernel_version a b ≡ same) ↔ SameNumbers a b)
      × ((compare_kernel_version a b ≡ before) ↔ (compare_kernel_version b a ≡ after))
      × (compare_kernel_version a b ≡ before
          → compare_kernel_version b c ≡ before
          → compare_kernel_version a c ≡ before)
unfolding compare_kernel_version
compare_kernel_version_order a b c = (ground arith, ground arith, λ h k. ground arith)

trim_front_lacking : (s : Bytes) → Lacks b'+' s → trim_front s ≡ s
unfolding trim_front
trim_front_lacking [] h = refl
trim_front_lacking (c ∷ s) h = ground arith

trim_back_lacking : (s : Bytes) → Lacks b'+' s → trim_back s ≡ s
unfolding trim_back
trim_back_lacking [] h = refl
trim_back_lacking (c ∷ []) h = ground arith
trim_back_lacking (c ∷ d ∷ s) h = rw (trim_back_lacking (d ∷ s) h.1) refl

plus : (n : ℕ) → Lacks b'+' (itoa n)
plus n = digits-Lacks b'+' (λ d. omega arith) (itoa n) (itoa-IsDigit n)

dot : (n : ℕ) → Lacks b'.' (itoa n)
dot n = digits-Lacks b'.' (λ d. omega arith) (itoa n) (itoa-IsDigit n)

dash : (n : ℕ) → Lacks b'-' (itoa n)
dash n = digits-Lacks b'-' (λ d. omega arith) (itoa n) (itoa-IsDigit n)

atoi_lacking : (s : Bytes) → Lacks b'+' s → s ≢ [] → atoi s ≡ parse_uint 63 s
unfolding atoi
atoi_lacking [] h ne = absurd (ne refl)
atoi_lacking (c ∷ s) h ne = ground arith

atoi-itoa : (n : ℕ) → n < 2 ^ 63 → atoi (itoa n) ≡ some n
atoi-itoa n h = atoi_lacking (itoa n) (plus n) (itoa-ne-nil n) ∙ parse_uint-itoa 63 n h

split_numbers :
    (k m n : ℕ)
    → split b'.' (itoa k ++ b'.' ∷ (itoa m ++ b'.' ∷ itoa n)) ≡ itoa k ∷ itoa m ∷ itoa n ∷ []
split_numbers k m n =
    split_at b'.' (itoa k) (itoa m ++ b'.' ∷ itoa n) (dot k)
    ∙ ap (λ (l : List Bytes). itoa k ∷ l)
        (split_at b'.' (itoa m) (itoa n) (dot m)
          ∙ ap (λ (l : List Bytes). itoa m ∷ l) (split_lacking b'.' (itoa n) (dot n)))

numbers-Lacks : (k m n : ℕ) → Lacks b'-' (itoa k ++ b'.' ∷ (itoa m ++ b'.' ∷ itoa n))
numbers-Lacks k m n =
    All-append (λ c. c ≢ b'-') (itoa k) (b'.' ∷ (itoa m ++ b'.' ∷ itoa n))
      (
        omega arith,
        All-append (λ c. c ≢ b'-') (itoa m) (b'.' ∷ itoa n) (omega arith, dash n) (dash m),
      )
      (dash k)

cut_lacking : (b : ℕ) (s : Bytes) → Lacks b s → cut b s ≡ (s, none)
unfolding cut
cut_lacking b [] h = refl
cut_lacking b (c ∷ s) h = rw (cut_lacking b s h.1) (ground arith)

parse_numbers_lem :
    (k m n : ℕ)
    → k < 2 ^ 63
    → m < 2 ^ 63
    → n < 2 ^ 63
    → parse_numbers (split b'.' (itoa k ++ b'.' ∷ (itoa m ++ b'.' ∷ itoa n))) ≡ some (k, m, n)
unfolding parse_numbers
parse_numbers_lem k m n hk hm hn =
    rw
      (
        split_numbers k m n,
        atoi-itoa k hk,
        atoi-itoa m hm,
        trim_front_lacking (itoa n) (plus n),
        trim_back_lacking (itoa n) (plus n),
        atoi-itoa n hn,
      )
      refl

abbrev numbers_text : ℕ → ℕ → ℕ → Bytes
numbers_text k m n = itoa k ++ b'.' ∷ (itoa m ++ b'.' ∷ itoa n)

parse_release-cut :
    (text : Bytes) (o : Option Bytes) (k m n : ℕ)
    → cut b'-' text ≡ (numbers_text k m n, o)
    → parse_numbers (split b'.' (numbers_text k m n)) ≡ some (k, m, n)
    → parse_release text ≡ some (record { kernel = k; major = m; minor = n; flavor = flavor_of o })
unfolding parse_release
parse_release-cut text o k m n e h = rw (e) (rw h refl)

parse_release_text :
    (k m n : ℕ) (f : Bytes)
    → parse_numbers (split b'.' (numbers_text k m n)) ≡ some (k, m, n)
    → parse_release (print_release (record { kernel = k; major = m; minor = n; flavor = f }))
      ≡ some (record { kernel = k; major = m; minor = n; flavor = f })
unfolding print_release
parse_release_text k m n [] h =
    parse_release-cut (numbers_text k m n ++ []) none k m n
      (ap (cut b'-') (append-nil (numbers_text k m n)) ∙ cut_lacking b'-' _ (numbers-Lacks k m n)) h
parse_release_text k m n (c ∷ f) h =
    parse_release-cut (numbers_text k m n ++ b'-' ∷ c ∷ f) (some (c ∷ f)) k m n
      (cut_at b'-' (numbers_text k m n) (c ∷ f) (numbers-Lacks k m n)) h

-- The text of a kernel version whose numbers are below 2 ^ 63 is parsed to it, whatever its
-- flavor.
parse_release-print_release :
    (v : KernelVersionInfo)
    → v.kernel < 2 ^ 63
    → v.major < 2 ^ 63
    → v.minor < 2 ^ 63
    → parse_release (print_release v) ≡ some v
parse_release-print_release v hk hm hn =
    parse_release_text v.kernel v.major v.minor v.flavor
      (parse_numbers_lem v.kernel v.major v.minor hk hm hn)
