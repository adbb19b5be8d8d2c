-- ===== src/App/Creation/Quotas.antt =====
-- What the quotas are after a creation that was undone.
use docker_stuff.Base.{
  ℕ, suc, if◌then◌else◌, ◌≡◌, refl, ap, ◌∙◌, Bool, true, List, [], ◌∷◌, none, some, Bytes,
  Bool-cases, inl, inr,
}
use mathlib.Core.Path.{subst}
use docker_stuff.Text.Split.{eq_bytes_iff}
use docker_stuff.Action.{Action, failed, State, execute}
use docker_stuff.Quota.{Usage, DbResult, stored, duplicate, Collection, reserve, release, delete}
use docker_stuff.Quota.Documented.{Documented, Effect, Effect-Either, on_usage, pull_each}
use docker_stuff.App.{App}
use docker_stuff.App.Creation.{
  Backend, Param, an_app, a_user, Result, CreationError, app_already_exists, with_unit,
}
use docker_stuff.App.Creation.Pipelines.{actions}
use docker_stuff.App.Creation.Undo.{with_quota, refused-world}

module _ {W : Type 0} (c : Collection W) (documented : Documented c) where
  -- A quota that is not there is not made by a release.
  release-missing :
      (owner k : Bytes) (gone : List Bytes) (w : W)
      → c.find_one k w ≡ none
      → c.find_one k (release c owner gone w).1 ≡ none
  unfolding release
  release-missing owner k gone w lacks = elim (Bool-cases (c.connected w)) [
    | inl online ↦
        rw online
          (elim (Effect-Either c owner
            (on_usage (λ (u : Usage). record u { items = pull_each gone u.items })) w
            (c.pull_all owner gone w) (documented.pull_effect owner gone w) k) [
              | inl same ↦ same ∙ lacks
              | inr (e, changed) ↦
                  changed
                  ∙ ap (on_usage (λ (u : Usage). record u { items = pull_each gone u.items })) lacks
            ])
    | inr offline ↦ rw offline lacks
  ]

  delete-stored :
      (k : Bytes) (w w' : W)
      → c.connected w ≡ true
      → c.remove k w ≡ (stored, w')
      → c.find_one k (delete c k w).1 ≡ none
  unfolding delete
  delete-stored k w w' online e =
      let effect = subst (Effect c k (λ u. none) w) e (documented.remove_effect k w) in
      rw online (
        ap (λ (t : DbResult × W). c.find_one k t.1) e
        ∙ effect k
        ∙ ap (λ (v : Bool). if v then none else c.find_one k w) ((eq_bytes_iff k k).1 refl))

  module _ (b : Backend W) (limit : ℕ) (others : ℕ → Action W Result CreationError Param) where
    -- If the database does what it documents and the units of an app are limited, the pipeline
    -- of CreateApp for an app whose reservation for the user returns no error, which the
    -- collection of the apps refuses as a duplicate, and whose quota the database then removes
    -- when asked, ends with the error that the app already exists and leaves no quota under that
    -- name, also where the quota was that of the app which is there.
    pub create_existing :
        (app : App) (email : Bytes) (more : List ℕ) (s : State W Result) (w1 w3 w4 : W)
        → reserve c email (app.name ∷ []) s.world ≡ (none, w1)
        → b.db_up (with_quota c b limit others app w1) ≡ true
        → b.insert (with_unit app) (with_quota c b limit others app w1) ≡ (duplicate, w3)
        → c.connected w3 ≡ true
        → c.remove app.name w3 ≡ (stored, w4)
        → (s' : State W Result) × (execute
              (actions c b (some (suc limit)) others)
              (an_app app ∷ a_user email ∷ [])
              (0 ∷ 1 ∷ 2 ∷ more)
              s
            ≡ (some (failed app_already_exists), s'))
          × (c.find_one app.name s'.world ≡ none)
    create_existing app email more s w1 w3 w4 there up refused online gone =
        let (s', e, w) = refused-world c b limit others app email more s w1 w3 there up refused in
        (
          s',
          e,
          ap (c.find_one app.name) w
              ∙ release-missing email app.name (app.name ∷ []) (delete c app.name w3).1
                  (delete-stored app.name w3 w4 online gone),
        )
