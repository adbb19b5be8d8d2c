-- ===== src/Names/Tags.antt =====
-- What `ParseRepositoryTag` takes for the tag.
use docker_stuff.Base.{ℕ, ◌≡◌, refl, if◌then◌else◌, [], ◌∷◌, ◌++◌, none, some, Bytes, arith}
use docker_stuff.Text.Split.{contains_byte, Lacks}
use docker_stuff.Names.{cut_last, parse_repository_tag}

cut_last_lacking : (b : ℕ) (s : Bytes) → Lacks b s → cut_last b s ≡ none
unfolding cut_last
cut_last_lacking b [] h = refl
cut_last_lacking b (c ∷ s) h = rw (cut_last_lacking b s h.1) (ground arith)

cut_last_at : (b : ℕ) (s t : Bytes) → Lacks b t → cut_last b (s ++ b ∷ t) ≡ some (s, t)
unfolding cut_last
cut_last_at b [] t h = rw (cut_last_lacking b t h) (ground arith)
cut_last_at b (c ∷ s) t h = rw (cut_last_at b s t h)

-- For a text without a colon, ParseRepositoryTag gives it back with no tag; for a name, a colon
-- and such a text, it takes the text for the tag exactly if it holds no slash, and else gives
-- the whole back with no tag.
parse_repository_tag_lem :
    (name tag : Bytes)
    → Lacks b':' tag
    → (parse_repository_tag (name ++ b':' ∷ tag)
        ≡ (if contains_byte b'/' tag then (name ++ b':' ∷ tag, []) else (name, tag)))
      × (parse_repository_tag tag ≡ (tag, []))
unfolding parse_repository_tag
parse_repository_tag_lem name tag h = (
  rw (cut_last_at b':' name tag h, parse_repository_tag) refl,
  rw (cut_last_lacking b':' tag h, parse_repository_tag) refl,
)
