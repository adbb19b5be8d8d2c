-- ===== src/Quota/Documented.antt =====
-- What the code relies on of the database: an operation changes the one document of its owner, and
-- one that fails for want of a document, or for a duplicate, changes none.
use docker_stuff.Base.{
  ℕ, ◌+◌, ◌≤◌, if◌then◌else◌, ◌≡◌, ◌⊎◌, true, List, [], ◌∷◌, ◌++◌, Option, none, some, Bytes,
  length, length-append, arith, Bool-cases, inl, inr,
}
use docker_stuff.Text.Split.{eq_bytes, has_text}
use docker_stuff.Quota.{Usage, DbResult, stored, duplicate, not_found, db_failed, Collection}

-- `$addToSet` with `$each`
unfoldable pub add_each : List Bytes → List Bytes → List Bytes
unfolding has_text
add_each [] items = items
add_each (i ∷ more) items = add_each more (if has_text i items then items else items ++ i ∷ [])

-- `$pullAll`
unfoldable pub pull_each : List Bytes → List Bytes → List Bytes
unfolding has_text
pull_each gone [] = []
pull_each gone (i ∷ items) =
    let rest = pull_each gone items in if has_text i gone then rest else i ∷ rest

abbrev pub on_usage : (Usage → Usage) → Option Usage → Option Usage
on_usage f none = none
on_usage f (some u) = some (f u)

-- An insertion, which never replaces: the index of the owners is unique.
abbrev pub unless_there : ℕ → Option Usage → Option Usage
unless_there limit none = some (record { items = []; limit = limit })
unless_there limit (some u) = some u

module _ {W : Type 0} (c : Collection W) where
  abbrev pub Changed : Bytes → (Option Usage → Option Usage) → W → W → Type 0
  Changed owner f w w' =
      (k : Bytes)
      → c.find_one k w' ≡ (if eq_bytes owner k then f (c.find_one k w) else c.find_one k w)

  abbrev pub Unchanged : W → W → Type 0
  Unchanged w w' = (k : Bytes) → c.find_one k w' ≡ c.find_one k w

  -- After an error of the connection, the change may have been made or not.
  abbrev pub Effect : Bytes → (Option Usage → Option Usage) → W → DbResult × W → Type 0
  Effect owner f w (stored, w') = Changed owner f w w'
  Effect owner f w (duplicate, w') = Unchanged w w'
  Effect owner f w (not_found, w') = Unchanged w w'
  Effect owner f w (db_failed, w') = Changed owner f w w' ⊎ Unchanged w w'

  pub record Documented : Type 0 where
    pub insert_effect :
        (owner : Bytes) (limit : ℕ) (w : W)
        → Effect owner (unless_there limit) w (c.insert owner limit w)
    pub remove_effect : (owner : Bytes) (w : W) → Effect owner (λ u. none) w (c.remove owner w)
    pub add_effect :
        (owner : Bytes) (more : List Bytes) (w : W)
        → Effect owner
            (on_usage (λ u. record u { items = add_each more u.items }))
            w
            (c.add_to_set owner more w)
    pub pull_effect :
        (owner : Bytes) (gone : List Bytes) (w : W)
        → Effect owner
            (on_usage (λ u. record u { items = pull_each gone u.items }))
            w
            (c.pull_all owner gone w)
    pub set_effect :
        (owner : Bytes) (value : ℕ) (w : W)
        → Effect owner (on_usage (λ u. record u { limit = value })) w (c.set_limit owner value w)

  -- Each usage is the old one or the new one.
  abbrev pub Either : Bytes → (Option Usage → Option Usage) → W → W → Bytes → Type 0
  Either owner f w w' k =
      (c.find_one k w' ≡ c.find_one k w)
      ⊎ ((eq_bytes owner k ≡ true) × (c.find_one k w' ≡ f (c.find_one k w)))

  Changed-Either :
      (owner : Bytes) (f : Option Usage → Option Usage) (w w' : W)
      → Changed owner f w w'
      → (k : Bytes) → Either owner f w w' k
  Changed-Either owner f w w' h k = elim (Bool-cases (eq_bytes owner k)) [
    | inl e ↦ inr (e, rw e at (h k))
    | inr ne ↦ inl (rw ne at (h k))
  ]

  pub Effect-Either :
      (owner : Bytes) (f : Option Usage → Option Usage) (w : W) (t : DbResult × W)
      → Effect owner f w t
      → (k : Bytes) → Either owner f w t.1 k
  Effect-Either owner f w (stored, w') h k = Changed-Either owner f w w' h k
  Effect-Either owner f w (duplicate, w') h k = inl (h k)
  Effect-Either owner f w (not_found, w') h k = inl (h k)
  Effect-Either owner f w (db_failed, w') (inl h) k = Changed-Either owner f w w' h k
  Effect-Either owner f w (db_failed, w') (inr h) k = inl (h k)

pub length-add_each :
    (more items : List Bytes) → length (add_each more items) ≤ length items + length more
unfolding add_each
length-add_each [] items = omega arith
length-add_each (i ∷ more) items = elim (Bool-cases (has_text i items)) [
  | inl there ↦ rw there (omega (arith, length-add_each more items))
  | inr new ↦
      rw new (omega (arith, length-add_each more (items ++ i ∷ []), length-append items (i ∷ [])))
]

pub length-pull_each : (gone items : List Bytes) → length (pull_each gone items) ≤ length items
unfolding pull_each
length-pull_each gone [] = omega arith
length-pull_each gone (i ∷ items) = ground (arith, length-pull_each gone items)
