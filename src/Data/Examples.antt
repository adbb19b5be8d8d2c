-- ===== src/Data/Examples.antt =====
-- Runs of libchan's wire format and messages on small maps.
use docker_stuff.Base.{
  ◌^◌, ◌<◌, if◌then◌else◌, ◌≡◌, ◌≢◌, refl, [], ◌∷◌, ◌++◌, Bytes, codes, length, arith,
}
use docker_stuff.Text.Decimal.{itoa, digits}
use docker_stuff.Text.Split.{eq_bytes}
use docker_stuff.Data.{
  ok, panicked, running, Entries, encode_string, encode_items, encode_header, encode, decode,
}
use docker_stuff.Data.Lists.{max_length, Fits}
use docker_stuff.Data.RoundTrip.{FitsAll, IsMap, has_key, decode-encode}
use docker_stuff.Data.Totality.{decode-ne-running, decode_panics}
use docker_stuff.Data.Message.{find, set_values, found_values, get}
use docker_stuff.Data.Message.Laws.{IsMessage, get-set_values}

abbrev colors : Entries
colors = (codes "a", codes "red" ∷ codes "blue" ∷ []) ∷ (codes "b", []) ∷ []

colors-FitsAll : FitsAll colors
unfolding encode_items encode_string itoa digits
colors-FitsAll = ((omega arith, omega arith), ((omega arith, omega arith), tt))

colors-IsMap : IsMap colors
unfolding has_key eq_bytes
colors-IsMap = (refl, (refl, tt))

decode-encode_example : decode (encode colors) ≡ ok colors
decode-encode_example = decode-encode colors colors-FitsAll colors-IsMap

decode-ne-running_example : decode (codes "000;1:a,1") ≢ running
decode-ne-running_example = decode-ne-running (codes "000;1:a,1")

decode_panics_example : decode (encode_header 0 ++ (itoa (2 ^ 63) ++ b':' ∷ codes "a,")) ≡ panicked
decode_panics_example = decode_panics (2 ^ 63) (codes "a,") (omega arith) (omega arith)

colors-IsMessage : IsMessage (encode colors) colors
colors-IsMessage = record { fits = colors-FitsAll; is_map = colors-IsMap; text = refl }

short_key : length (codes "a") < max_length
short_key = omega arith

one-Fits : Fits (codes "green" ∷ [])
unfolding encode_items encode_string itoa digits
one-Fits = omega arith

more-Fits : Fits (found_values (find (codes "a") colors) ++ codes "green" ∷ [])
unfolding encode_items encode_string itoa digits found_values find eq_bytes
more-Fits = omega arith

get-set_values_example :
    (n : Bytes) × (set_values (encode colors) (codes "a") (codes "green" ∷ []) ≡ ok n)
    × ((j : Bytes)
        → get n j
          ≡ (if eq_bytes (codes "a") j then ok (codes "green" ∷ []) else get (encode colors) j))
get-set_values_example =
    get-set_values (encode colors) colors (codes "a") (codes "green" ∷ []) colors-IsMessage
      short_key one-Fits
