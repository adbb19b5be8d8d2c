-- ===== src/Data/Totality.antt =====
-- `Decode` ends on every text, and the lengths at which it panics.
use docker_stuff.Base.{
  ℕ, zero, suc, ◌+◌, ◌-◌, ◌%◌, ◌^◌, ◌≤◌, ◌<◌, leb, ◌==◌, ◌≡◌, ◌≢◌, refl, true, List, [], ◌∷◌, ◌++◌,
  Option, none, some, Bytes, length, drop, arith, Bool-cases, inl, inr, length-append, drop-append,
}
use native.Mathlib.Decide.{dec_lt}
use docker_stuff.Text.Decimal.{itoa, parse_uint, parse_uint-itoa, itoa-IsDigit, digits-Lacks}
use docker_stuff.Text.Split.{cut, cut_at}
use docker_stuff.Data.{
  Decoded, ok, err, panicked, running, ◌>>=◌, Entries, encode_header, take_payload, decode_parts,
  decode_split, decode_string, decode_items, decode_list, decode_header, decode_entries, decode,
}
use docker_stuff.Data.RoundTrip.{header_lem, length_header}

pub length-drop {ℓ} : {A : Type ℓ} (k : ℕ) (l : List A) → length (drop k l) ≡ length l - k
length-drop (suc k) (v ∷ l) = let shorter = length-drop k l in omega (arith, shorter)
length-drop (suc k) [] = omega arith
length-drop zero l = omega arith

bind-ne-running {ℓ κ} :
    {A : Type ℓ} {B : Type κ} (m : Decoded A) (f : A → Decoded B)
    → m ≢ running
    → ((a : A) → m ≡ ok a → f a ≢ running)
    → (m >>= f) ≢ running
bind-ne-running (ok a) f h k = k a refl
bind-ne-running (err e) f h k = cc
bind-ne-running panicked f h k = cc
bind-ne-running running f h k = absurd (h refl)

take_payload-ne-running : (rest : Bytes) (l : ℕ) → take_payload rest l ≢ running
unfolding take_payload
take_payload-ne-running rest l = ground arith

decode_split-ne-running : (c : Bytes × Option Bytes) → decode_split c ≢ running
unfolding decode_split decode_parts
decode_split-ne-running (head, none) = cc
decode_split-ne-running (head, some rest) =
    ground (arith, take_payload-ne-running rest (get (parse_uint 64 head)))
  where
    get : Option ℕ → ℕ
    get none = 0
    get (some l) = l

decode_split_pos : (c : Bytes × Option Bytes) (r : Bytes × ℕ) → decode_split c ≡ ok r → 0 < r.1
unfolding decode_split decode_parts
decode_split_pos (head, none) r h = cc
decode_split_pos (head, some rest) r h = ground arith

pub decode_string-ne-running : (msg : Bytes) → decode_string msg ≢ running
unfolding decode_string
decode_string-ne-running msg = decode_split-ne-running (cut b':' msg)

pub decode_string_pos : (msg : Bytes) (r : Bytes × ℕ) → decode_string msg ≡ ok r → 0 < r.1
unfolding decode_string
decode_string_pos msg = decode_split_pos (cut b':' msg)

decode_items-ne-running :
    (fuel : ℕ) (blob : Bytes) (l : List Bytes)
    → length blob ≤ fuel
    → decode_items fuel blob l ≢ running
unfolding decode_items
decode_items-ne-running zero [] l h = cc
decode_items-ne-running (suc fuel) [] l h = cc
decode_items-ne-running zero (c ∷ blob) l h = absurd (omega arith)
decode_items-ne-running (suc fuel) (c ∷ blob) l h =
    bind-ne-running (decode_string (c ∷ blob)) _ (decode_string-ne-running (c ∷ blob)) λ r e.
      decode_items-ne-running fuel (drop r.1 (c ∷ blob)) (l ++ r.0 ∷ [])
        (omega (arith, h, length-drop r.1 (c ∷ blob), decode_string_pos (c ∷ blob) r e))

decode_list-ne-running : (msg : Bytes) → decode_list msg ≢ running
unfolding decode_list
decode_list-ne-running msg =
    bind-ne-running (decode_string msg) _ (decode_string-ne-running msg) λ r e.
      bind-ne-running (decode_items (length r.0) r.0 []) _
        (decode_items-ne-running (length r.0) r.0 [] (omega arith)) (λ l _. cc)

decode_entries-ne-running :
    (fuel : ℕ) (msg : Bytes) (obj : Entries)
    → length msg ≤ fuel
    → decode_entries fuel msg obj ≢ running
unfolding decode_entries
decode_entries-ne-running zero [] obj h = cc
decode_entries-ne-running (suc fuel) [] obj h = cc
decode_entries-ne-running zero (c ∷ msg) obj h = absurd (omega arith)
decode_entries-ne-running (suc fuel) (c ∷ msg) obj h =
    bind-ne-running (decode_string (c ∷ msg)) _ (decode_string-ne-running (c ∷ msg)) λ key e.
      bind-ne-running (decode_list (drop key.1 (c ∷ msg))) _ (decode_list-ne-running _) λ values _.
        decode_entries-ne-running fuel _ _ (
          omega (
            arith,
            h,
            length-drop key.1 (c ∷ msg),
            length-drop values.1 (drop key.1 (c ∷ msg)),
            decode_string_pos (c ∷ msg) key e,
          ))

decode_header-ne-running : (msg : Bytes) → decode_header msg ≢ running
unfolding decode_header
decode_header-ne-running msg = ground arith

-- Decode ends on every text: its loops never need more rounds than the text has bytes.
pub decode-ne-running : (msg : Bytes) → decode msg ≢ running
unfolding decode
decode-ne-running msg =
    bind-ne-running (decode_header msg) _ (decode_header-ne-running msg) λ head _.
      elim (Bool-cases (head.0.1 == 0)) [
        | inl known ↦
            rw known (decode_entries-ne-running _ _ [] (omega (arith, length-drop head.1 msg)))
        | inr unknown ↦ rw unknown (cc)
      ]

take_payload_panics :
    (rest : Bytes) (l : ℕ) → 2 ^ 63 - 1 ≤ l → l < 2 ^ 64 → take_payload rest l ≡ panicked
unfolding take_payload
take_payload_panics rest l h lt = elim (dec_lt l (2 ^ 64 - 1)) [
  | yes below ↦
      let bound : (l + 1) % 2 ^ 64 ≡ l + 1 = omega arith in
      let large : leb (2 ^ 63) (l + 1) ≡ true = ground arith in rw (bound, large)
  | no not_below ↦ let last : l ≡ 2 ^ 64 - 1 = omega arith in rw last (ground arith)
]

decode_string_panics :
    (l : ℕ) (rest : Bytes)
    → 2 ^ 63 - 1 ≤ l
    → l < 2 ^ 64
    → decode_string (itoa l ++ b':' ∷ rest) ≡ panicked
unfolding decode_string decode_split decode_parts
decode_string_panics l rest h lt =
    rw
      (
        cut_at b':' (itoa l) rest (digits-Lacks b':' (λ d. omega arith) _ (itoa-IsDigit l)),
        parse_uint-itoa 64 l lt,
        decode_parts,
      )
      (rw (take_payload_panics rest l h lt))

decode_entries_panics :
    (fuel : ℕ) (msg : Bytes) (obj : Entries)
    → 0 < fuel
    → 0 < length msg
    → decode_string msg ≡ panicked
    → decode_entries fuel msg obj ≡ panicked
unfolding decode_entries
decode_entries_panics zero msg obj h lt e = absurd (omega arith)
decode_entries_panics (suc fuel) [] obj h lt e = absurd (omega arith)
decode_entries_panics (suc fuel) (c ∷ msg) obj h lt e = rw e

-- If the length of the first string behind the header is written as 2 ^ 63 - 1 or more, up to
-- what fits 64 bits, Decode panics, whatever follows.
pub decode_panics :
    (l : ℕ) (rest : Bytes)
    → 2 ^ 63 - 1 ≤ l
    → l < 2 ^ 64
    → decode (encode_header 0 ++ (itoa l ++ b':' ∷ rest)) ≡ panicked
unfolding decode
decode_panics l rest h lt =
    let msg : Bytes = itoa l ++ b':' ∷ rest in
    let size = length-append (encode_header 0) msg in
    let shape = length-append (itoa l) (b':' ∷ rest) in
    rw (header_lem msg) (
      rw (← length_header) (
        rw (drop-append (encode_header 0) msg) (
          decode_entries_panics _ msg [] (omega (arith, size, length_header)) (omega (arith, shape))
            (decode_string_panics l rest h lt))))
