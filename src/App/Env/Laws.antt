-- ===== src/App/Env/Laws.antt =====
-- What setting and unsetting variables leaves of an environment.
use docker_stuff.Base.{
  if◌then◌else◌, ◌≡◌, refl, sym, ap, ◌∙◌, Bool, true, false, ◌&&◌, ◌||◌, List, [], ◌∷◌, Option,
  none, some, Bytes, arith, Bool-cases, inl, inr,
}
use docker_stuff.Text.Split.{eq_bytes, eq_bytes_iff, has_text}
use docker_stuff.TagStore.Tables.{find, erase}
use docker_stuff.TagStore.Lookups.{find-put, find-erase}
use docker_stuff.App.{EnvVar, App}
use docker_stuff.App.Env.{
  Env, set_env, settable, unsettable, set_all, unset_all, Saving, save, set_envs_to_app, unset_envs,
}

-- The last variable of a name
unfoldable pub last_named : Bytes → List EnvVar → Option EnvVar → Option EnvVar
unfolding eq_bytes
last_named k [] o = o
last_named k (e ∷ envs) o = last_named k envs (if eq_bytes e.name k then some e else o)

pub find-set_all :
    (k : Bytes) (envs : List EnvVar) (env : Env)
    → find k (set_all false envs env) ≡ last_named k envs (find k env)
unfolding set_all last_named
find-set_all k [] env = refl
find-set_all k (e ∷ envs) env =
    ap (λ (b : Bool). find k (set_all false envs (if b then set_env e env else env)))
      (always (find e.name env))
    ∙ find-set_all k envs (set_env e env)
    ∙ ap (last_named k envs) (find-put k e.name e env)
  where
    always : (o : Option EnvVar) → settable false o ≡ true
    always none = refl
    always (some x) = refl

set_private :
    (k : Bytes) (v e : EnvVar) (env : Env)
    → v.public ≡ false
    → find k env ≡ some v
    → find k (if settable true (find e.name env) then set_env e env else env) ≡ some v
set_private k v e env hidden there = elim (Bool-cases (eq_bytes e.name k)) [
  | inl same ↦
      let at = ap (λ (n : Bytes). find n env) ((eq_bytes_iff e.name k).0 same) ∙ there in
      ap (λ (o : Option EnvVar). find k (if settable true o then set_env e env else env)) at
      ∙ ap (λ (b : Bool). find k (if b then set_env e env else env)) hidden
      ∙ there
  | inr other ↦ elim (Bool-cases (settable true (find e.name env))) [
    | inl yes_set ↦ rw yes_set (find-put k e.name e env ∙ rw other there)
    | inr not_set ↦ rw not_set there
  ]
]

pub set_all-private :
    (k : Bytes) (v : EnvVar) (envs : List EnvVar) (env : Env)
    → v.public ≡ false
    → find k env ≡ some v
    → find k (set_all true envs env) ≡ some v
unfolding set_all
set_all-private k v [] env hidden there = there
set_all-private k v (e ∷ envs) env hidden there =
    set_all-private k v envs (if settable true (find e.name env) then set_env e env else env) hidden
      (set_private k v e env hidden there)

-- What one round takes out.
unset-one :
    (k name : Bytes) (public_only : Bool) (env : Env)
    → find k (if unsettable public_only (find name env) then erase name env else env)
      ≡ (if eq_bytes name k && unsettable public_only (find k env) then none else find k env)
unset-one k name public_only env = elim (Bool-cases (eq_bytes name k)) [
  | inl same ↦ rw same (elim (Bool-cases (unsettable public_only (find k env))) [
    | inl out ↦ rw out (
        ap (λ (b : Bool). find k (if b then erase name env else env))
          (ap (λ (n : Bytes). unsettable public_only (find n env)) ((eq_bytes_iff name k).0 same)
            ∙ out)
        ∙ find-erase k name env
        ∙ rw same refl)
    | inr stays ↦ rw stays (
        ap (λ (b : Bool). find k (if b then erase name env else env))
          (ap (λ (n : Bytes). unsettable public_only (find n env)) ((eq_bytes_iff name k).0 same)
            ∙ stays))
  ])
  | inr other ↦ rw other (elim (Bool-cases (unsettable public_only (find name env))) [
    | inl out ↦ rw out (find-erase k name env ∙ rw other refl)
    | inr stays ↦ rw stays refl
  ])
]

-- Once out or kept, it is so by the other names.
unset-twice :
    (public_only a b : Bool) (o : Option EnvVar)
    → (if b && unsettable public_only (if a && unsettable public_only o then none else o)
        then none
        else (if a && unsettable public_only o then none else o))
      ≡ (if (a || b) && unsettable public_only o then none else o)
unset-twice p a b none = ground arith
unset-twice p a b (some e) = ground arith

pub find-unset_all :
    (k : Bytes) (public_only : Bool) (names : List Bytes) (env : Env)
    → find k (unset_all public_only names env)
      ≡ (if has_text k names && unsettable public_only (find k env) then none else find k env)
unfolding unset_all has_text
find-unset_all k public_only [] env = refl
find-unset_all k public_only (name ∷ names) env =
    find-unset_all k public_only names
      (if unsettable public_only (find name env) then erase name env else env)
    ∙ ap (λ (o : Option EnvVar). if has_text k names && unsettable public_only o then none else o)
        (unset-one k name public_only env)
    ∙ unset-twice public_only (eq_bytes name k) (has_text k names) (find k env)

abbrev pub names_of : List EnvVar → List Bytes
names_of [] = []
names_of (e ∷ envs) = e.name ∷ names_of envs

last_named-other :
    (k : Bytes) (envs : List EnvVar) (o : Option EnvVar)
    → has_text k (names_of envs) ≡ false
    → last_named k envs o ≡ o
unfolding last_named has_text
last_named-other k [] o h = refl
last_named-other k (e ∷ envs) o h = elim (Bool-cases (eq_bytes e.name k)) [
  | inl same ↦ elim (no_way (rw same at h)) [ ]
  | inr other ↦ rw other (last_named-other k envs o (rw other at h))
]
  where
    no_way : true ≡ false → ⊥
    no_way e = cc

-- Unsetting the names of variables that were set gives back every variable of an environment
-- that had none of these names.
unset_all-set_all :
    (envs : List EnvVar) (env : Env)
    → ((k : Bytes) → has_text k (names_of envs) ≡ true → find k env ≡ none)
    → (k : Bytes) → find k (unset_all false (names_of envs) (set_all false envs env)) ≡ find k env
unset_all-set_all envs env fresh k =
    find-unset_all k false (names_of envs) (set_all false envs env)
    ∙ elim (Bool-cases (has_text k (names_of envs))) [
      | inl has ↦ rw has (out (find k (set_all false envs env)) ∙ sym (fresh k has))
      | inr lacks ↦ rw lacks (find-set_all k envs env ∙ last_named-other k envs (find k env) lacks)
    ]
  where
    out : (o : Option EnvVar) → (if unsettable false o then none else o) ≡ none
    out none = refl
    out (some e) = refl

module _ {W : Type 0} (d : Saving W) where
  save-env : (use_queue : Bool) (app : App) (w : W) → (save d use_queue app w).1.env ≡ app.env
  unfolding save
  save-env use_queue app w = elim (Bool-cases (d.connected w)) [
    | inl online ↦ elim (Bool-cases (d.update_env app.name app.env w).0) [
      | inl fine ↦ rw (online, fine) refl
      | inr failed ↦ rw (online, failed) refl
    ]
    | inr offline ↦ rw offline refl
  ]

  -- With public variables only, neither setting any variables nor unsetting any names changes a
  -- private variable of an app, whatever the database answers.
  pub private_kept :
      (k : Bytes) (v : EnvVar) (envs : List EnvVar) (names : List Bytes) (use_queue : Bool)
      (app : App) (w : W)
      → v.public ≡ false
      → find k app.env ≡ some v
      → (find k (set_envs_to_app d envs true use_queue app w).1.env ≡ some v)
        × (find k (unset_envs d names true app w).1.env ≡ some v)
  unfolding set_envs_to_app unset_envs
  private_kept k v envs names use_queue app w hidden there = (set_part envs, unset_part names)
    where
      never : (b : Bool) → (if b && false then none else some v) ≡ some v
      never true = refl
      never false = refl

      set_part :
          (envs : List EnvVar) → find k (set_envs_to_app d envs true use_queue app w).1.env ≡ some v
      set_part [] = there
      set_part (e ∷ more) =
          ap (find k) (save-env use_queue (record app { env = set_all true (e ∷ more) app.env }) w)
          ∙ set_all-private k v (e ∷ more) app.env hidden there

      unset_part : (names : List Bytes) → find k (unset_envs d names true app w).1.env ≡ some v
      unset_part [] = there
      unset_part (name ∷ more) =
          ap (find k) (save-env false (record app { env = unset_all true (name ∷ more) app.env }) w)
          ∙ find-unset_all k true (name ∷ more) app.env
          ∙ ap
              (λ (o : Option EnvVar).
                if has_text k (name ∷ more) && unsettable true o then none else o)
              there
          ∙ ap (λ (b : Bool). if has_text k (name ∷ more) && b then none else some v) hidden
          ∙ never (has_text k (name ∷ more))
