-- ===== src/Quota/Clients/Worlds.antt =====
-- What the accesses to the database leave of the limits.
use docker_stuff.Base.{
  ℕ, ◌^◌, ◌≤◌, ◌<◌, ◌≡◌, ◌≢◌, refl, sym, ap, ◌∙◌, List, Option, none, some, Bytes, length, arith,
  some_inj, Bool-cases, inl, inr,
}
use mathlib.Core.Path.{subst}
use docker_stuff.Text.Split.{eq_bytes_iff}
use docker_stuff.Quota.{Usage, Collection, create, release, set, add_items}
use docker_stuff.Quota.Documented.{
  Documented, Either, Effect-Either, on_usage, unless_there, add_each, pull_each, length-add_each,
  length-pull_each,
}
use docker_stuff.Quota.Clients.{
  Pc, idle, waiting, checking, adding, leaving, holds, Kept, Room, Roomier,
}

module _ {W : Type 0} (c : Collection W) where
  -- A usage with no more items and no lower limit.
  abbrev Looser : Usage → Usage → Type 0
  Looser u v = (length v.items ≤ length u.items) × (u.limit ≤ v.limit)

  Either-Roomier :
      (owner : Bytes) (f : Option Usage → Option Usage) (w w' : W)
      → ((k : Bytes) → Either c owner f w w' k)
      → ((u : Usage)
          → c.find_one owner w ≡ some u
          → (v : Usage) × (f (some u) ≡ some v) × Looser u v)
      → Roomier c w w'
  Either-Roomier owner f w w' either looser k u there = elim (either k) [
    | inl same ↦ (u, same ∙ there, omega arith, omega arith)
    | inr (e, changed) ↦
        let (v, now, less) =
          looser u (ap (λ (j : Bytes). c.find_one j w) ((eq_bytes_iff owner k).0 e) ∙ there) in
        (v, changed ∙ ap f there ∙ now, less.0, less.1)
  ]

  Either-Kept :
      (owner : Bytes) (f : Option Usage → Option Usage) (w w' : W)
      → ((k : Bytes) → Either c owner f w w' k)
      → Kept c w
      → ((v : Usage)
          → f (c.find_one owner w) ≡ some v
          → (length v.items ≤ v.limit) × (v.limit < 2 ^ 63))
      → Kept c w'
  Either-Kept owner f w w' either kept new k u there = elim (either k) [
    | inl same ↦ kept k u (sym same ∙ there)
    | inr (e, changed) ↦
        new u (
          ap (λ (j : Bytes). f (c.find_one j w)) ((eq_bytes_iff owner k).0 e) ∙ sym changed ∙ there)
  ]

  -- What becomes of a usage, by a function on it.
  on_usage-new :
      (g : Usage → Usage) (o : Option Usage) (v : Usage)
      → on_usage g o ≡ some v
      → (u : Usage) × (o ≡ some u) × (g u ≡ v)
  on_usage-new g none v e = elim (no e) [ ]
    where
      no : ◌≡◌ {A = Option Usage} none (some v) → ⊥
      no e = cc
  on_usage-new g (some u) v e = (u, refl, some_inj e)

  -- An access with a function that loosens the usage.
  loosened :
      (owner : Bytes) (g : Usage → Usage) (w w' : W)
      → ((k : Bytes) → Either c owner (on_usage g) w w' k)
      → ((u : Usage) → c.find_one owner w ≡ some u → Looser u (g u) × ((g u).limit < 2 ^ 63))
      → Kept c w
      → Kept c w' × Roomier c w w'
  loosened owner g w w' either looser kept = (
    Either-Kept owner (on_usage g) w w' either kept (λ v e.
        let (u, there, now) = on_usage-new g (c.find_one owner w) v e in
        let (less, small) = looser u there in
        subst (λ (x : Usage). (length x.items ≤ x.limit) × (x.limit < 2 ^ 63)) now
          (omega (arith, less.0, less.1, (kept owner u there).0), small)),
    Either-Roomier owner (on_usage g) w w' either (λ u there. (g u, refl, (looser u there).0)),
  )

  same_world : (w : W) → Kept c w → Kept c w × Roomier c w w
  same_world w kept = (kept, λ k u there. (u, there, omega arith, omega arith))

  module _ (documented : Documented c) where
    pub release-Roomier :
        (owner : Bytes) (gone : List Bytes) (w : W)
        → Kept c w
        → Kept c (release c owner gone w).1 × Roomier c w (release c owner gone w).1
    unfolding release
    release-Roomier owner gone w kept = elim (Bool-cases (c.connected w)) [
      | inl online ↦ rw online (
          loosened owner (λ u. record u { items = pull_each gone u.items }) w
            (c.pull_all owner gone w).1
            (Effect-Either c owner
              (on_usage (λ (u : Usage). record u { items = pull_each gone u.items })) w
              (c.pull_all owner gone w) (documented.pull_effect owner gone w))
            (λ u there. ((length-pull_each gone u.items, omega arith), (kept owner u there).1))
            kept)
      | inr offline ↦ rw offline (same_world w kept)
    ]

    pub set-Roomier :
        (owner : Bytes) (value : ℕ) (w : W)
        → value < 2 ^ 63
        → ((u : Usage) → c.find_one owner w ≡ some u → u.limit ≤ value)
        → Kept c w
        → Kept c (set c owner value w).1 × Roomier c w (set c owner value w).1
    unfolding set
    set-Roomier owner value w small higher kept = elim (Bool-cases (c.connected w)) [
      | inl online ↦ rw online (
          loosened owner (λ u. record u { limit = value }) w (c.set_limit owner value w).1
            (Effect-Either c owner (on_usage (λ (u : Usage). record u { limit = value })) w
              (c.set_limit owner value w) (documented.set_effect owner value w))
            (λ u there. ((omega arith, higher u there), small)) kept)
      | inr offline ↦ rw offline (same_world w kept)
    ]

    unless_there-Kept :
        (limit : ℕ) (o : Option Usage) (v : Usage)
        → limit < 2 ^ 63
        → ((u : Usage) → o ≡ some u → (length u.items ≤ u.limit) × (u.limit < 2 ^ 63))
        → unless_there limit o ≡ some v
        → (length v.items ≤ v.limit) × (v.limit < 2 ^ 63)
    unless_there-Kept limit none v small kept e =
        subst (λ (x : Usage). (length x.items ≤ x.limit) × (x.limit < 2 ^ 63)) (some_inj e)
          (omega arith, small)
    unless_there-Kept limit (some u) v small kept e = kept v e

    pub create-Roomier :
        (owner : Bytes) (limit : ℕ) (w : W)
        → limit < 2 ^ 63
        → Kept c w
        → Kept c (create c owner limit w).1 × Roomier c w (create c owner limit w).1
    unfolding create
    create-Roomier owner limit w small kept = elim (Bool-cases (c.connected w)) [
      | inl online ↦
          let either =
            Effect-Either c owner (unless_there limit) w (c.insert owner limit w)
              (documented.insert_effect owner limit w) in
          rw online (
            Either-Kept owner (unless_there limit) w (c.insert owner limit w).1 either kept
                (λ v e. unless_there-Kept limit (c.find_one owner w) v small (kept owner) e),
            Either-Roomier owner (unless_there limit) w (c.insert owner limit w).1 either
                (λ u there. (u, refl, (omega arith, omega arith))),
          )
      | inr offline ↦ rw offline (same_world w kept)
    ]

    -- The items that there was room for.
    pub add-Kept :
        (owner : Bytes) (more : List Bytes) (w : W)
        → Kept c w
        → Room c w (adding owner more)
        → Kept c (add_items c owner more w).1
    add-Kept owner more w kept (u, there, fits) =
        let g : Usage → Usage = λ u. record u { items = add_each more u.items } in
        Either-Kept owner (on_usage g) w (c.add_to_set owner more w).1
          (Effect-Either c owner (on_usage g) w (c.add_to_set owner more w)
            (documented.add_effect owner more w))
          kept
          (λ v e.
            let (old, found, now) = on_usage-new g (c.find_one owner w) v e in
            let same = some_inj (sym found ∙ there) in
            subst (λ (x : Usage). (length x.items ≤ x.limit) × (x.limit < 2 ^ 63))
              (ap g (sym same) ∙ now)
              (omega (arith, length-add_each more u.items, fits), (kept owner u there).1))

    -- They leave the room of the others.
    pub add-Room :
        (owner : Bytes) (more : List Bytes) (w : W) (p : Pc)
        → holds p ≢ some owner
        → Room c w p
        → Room c (add_items c owner more w).1 p
    add-Room owner more w idle other room = tt
    add-Room owner more w (waiting k items) other room = tt
    add-Room owner more w (checking k items) other room = tt
    add-Room owner more w (adding k items) other (u, there, fits) =
        let g : Usage → Usage = λ u. record u { items = add_each more u.items } in
        elim (Effect-Either c owner (on_usage g) w (c.add_to_set owner more w)
          (documented.add_effect owner more w) k) [
            | inl same ↦ (u, same ∙ there, fits)
            | inr (e, changed) ↦ elim (other (ap some (sym ((eq_bytes_iff owner k).0 e)))) [ ]
          ]
    add-Room owner more w (leaving k) other room = tt
