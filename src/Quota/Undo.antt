-- ===== src/Quota/Undo.antt =====
-- Releasing what was reserved.
use docker_stuff.Base.{
  if◌then◌else◌, ◌≡◌, refl, sym, ap, ◌∙◌, Bool, true, false, ◌||◌, List, [], ◌∷◌, ◌++◌, append-nil,
  append_assoc, Option, none, some, Bytes, All, Bool-cases, Option-cases, inl, inr,
}
use mathlib.Core.Path.{subst}
use docker_stuff.Text.Split.{eq_bytes, eq_bytes_iff, has_text}
use docker_stuff.Quota.{
  Usage, DbResult, stored, duplicate, not_found, db_failed, Collection, Outcome, QuotaError,
  updated, passed_on, refusal, unless_refused, reserve, release,
}
use docker_stuff.Quota.Documented.{Documented, Effect, on_usage, add_each, pull_each}

-- What `$addToSet` puts behind the items are some of the new ones.
record Added (more items : List Bytes) : Type 0 where
  extra : List Bytes
  are : add_each more items ≡ items ++ extra
  listed : All (λ t. has_text t more ≡ true) extra

All-wider :
    (i : Bytes) (more extra : List Bytes)
    → All (λ t. has_text t more ≡ true) extra
    → All (λ t. has_text t (i ∷ more) ≡ true) extra
unfolding has_text
All-wider i more [] h = tt
All-wider i more (t ∷ extra) h = (rw h.0 (or_true (eq_bytes i t)), All-wider i more extra h.1)
  where
    or_true : (b : Bool) → (b || true) ≡ true
    or_true true = refl
    or_true false = refl

added : (more items : List Bytes) → Added more items
unfolding add_each has_text
added [] items = record { extra = []; are = sym (append-nil items); listed = tt }
added (i ∷ more) items = elim (Bool-cases (has_text i items)) [
  | inl there ↦
      let rest = added more items in
      record {
        extra = rest.extra;
        are = rw there rest.are;
        listed = All-wider i more rest.extra rest.listed;
      }
  | inr new ↦
      let rest = added more (items ++ i ∷ []) in
      record {
        extra = i ∷ rest.extra;
        are = rw new (rest.are ∙ append_assoc items (i ∷ []) rest.extra);
        listed = (rw ((eq_bytes_iff i i).1 refl) refl, All-wider i more rest.extra rest.listed);
      }
]

pull_each-append :
    (gone xs ys : List Bytes) → pull_each gone (xs ++ ys) ≡ pull_each gone xs ++ pull_each gone ys
unfolding pull_each
pull_each-append gone [] ys = refl
pull_each-append gone (x ∷ xs) ys = elim (Bool-cases (has_text x gone)) [
  | inl out ↦ rw out (pull_each-append gone xs ys)
  | inr stays ↦ rw stays (ap (λ (l : List Bytes). x ∷ l) (pull_each-append gone xs ys))
]

pull_each_all :
    (gone xs : List Bytes) → All (λ t. has_text t gone ≡ true) xs → pull_each gone xs ≡ []
unfolding pull_each
pull_each_all gone [] h = refl
pull_each_all gone (x ∷ xs) h = rw h.0 (pull_each_all gone xs h.1)

pull_each_other :
    (gone xs : List Bytes) → All (λ t. has_text t gone ≡ false) xs → pull_each gone xs ≡ xs
unfolding pull_each
pull_each_other gone [] h = refl
pull_each_other gone (x ∷ xs) h =
    rw h.0 (ap (λ (l : List Bytes). x ∷ l) (pull_each_other gone xs h.1))

-- Pulling the items that were added to others gives back these.
pull_each-add_each :
    (more items : List Bytes)
    → All (λ t. has_text t more ≡ false) items
    → pull_each more (add_each more items) ≡ items
pull_each-add_each more items others =
    let a = added more items in
    ap (pull_each more) a.are
    ∙ pull_each-append more items a.extra
    ∙ ap (λ (l : List Bytes). pull_each more items ++ l) (pull_each_all more a.extra a.listed)
    ∙ append-nil (pull_each more items)
    ∙ pull_each_other more items others

module _ {W : Type 0} (c : Collection W) (documented : Documented c) where
  passed_stored :
      (t : DbResult × W) (w1 : W)
      → ◌≡◌ {A = Outcome × W} (passed_on t.0, t.1) (none, w1)
      → t ≡ (stored, w1)
  passed_stored (stored, w) w1 e = ap (λ (u : Outcome × W). (stored, u.1)) e
  passed_stored (duplicate, w) w1 e = cc
  passed_stored (not_found, w) w1 e = cc
  passed_stored (db_failed, w) w1 e = cc

  -- A Reserve without an error has stored its items.
  reserve-stored :
      (owner : Bytes) (more : List Bytes) (w w1 : W)
      → c.connected w ≡ true
      → reserve c owner more w ≡ (none, w1)
      → c.add_to_set owner more w ≡ (stored, w1)
  unfolding reserve
  reserve-stored owner more w w1 online e =
      let e' : unless_refused c (refusal (c.find_one owner w) more) owner more w ≡ (none, w1) =
        rw online at e in
      elim (Option-cases (refusal (c.find_one owner w) more)) [
        | inl fine ↦
            passed_stored (c.add_to_set owner more w) w1
              (sym (ap (λ (o : Outcome). unless_refused c o owner more w) fine) ∙ e')
        | inr (x, refused) ↦
            elim (no (sym (ap (λ (o : Outcome). unless_refused c o owner more w) refused) ∙ e')) [ ]
      ]
    where
      no : {y : QuotaError} → ◌≡◌ {A = Outcome × W} (some y, w) (none, w1) → ⊥
      no d = cc

  release-exact :
      (owner : Bytes) (gone : List Bytes) (w w2 : W)
      → c.connected w ≡ true
      → c.pull_all owner gone w ≡ (stored, w2)
      → release c owner gone w ≡ (none, w2)
  unfolding release
  release-exact owner gone w w2 online e =
      rw online (ap (λ (t : DbResult × W). (updated t.0, t.1)) e)

  -- If the database does what it documents, an owner that has a quota has none of some items in
  -- it, and Reserve of these returns no error, then a Release of the same items that the
  -- database carries out returns no error and leaves every quota as it was before.
  pub release-reserve :
      (owner : Bytes) (more : List Bytes) (w w1 w2 : W)
      → ((u : Usage) → c.find_one owner w ≡ some u → All (λ t. has_text t more ≡ false) u.items)
      → c.connected w ≡ true
      → reserve c owner more w ≡ (none, w1)
      → c.connected w1 ≡ true
      → c.pull_all owner more w1 ≡ (stored, w2)
      → (release c owner more w1 ≡ (none, w2)) × ((k : Bytes) → c.find_one k w2 ≡ c.find_one k w)
  release-reserve owner more w w1 w2 others online reserved online1 pulled =
      let f : Usage → Usage = λ u. record u { items = add_each more u.items } in
      let g : Usage → Usage = λ u. record u { items = pull_each more u.items } in
      let put_in =
        subst (Effect c owner (on_usage f) w) (reserve-stored owner more w w1 online reserved)
          (documented.add_effect owner more w) in
      let taken_out =
        subst (Effect c owner (on_usage g) w1) pulled (documented.pull_effect owner more w1) in
      (
        release-exact owner more w1 w2 online1 pulled,
        λ k. elim (Bool-cases (eq_bytes owner k)) [
          | inl same ↦
              let at = (eq_bytes_iff owner k).0 same in
              taken_out k
              ∙ ap (λ (b : Bool). if b then on_usage g (c.find_one k w1) else c.find_one k w1) same
              ∙ ap (on_usage g) (
                  put_in k
                  ∙ ap (λ (b : Bool). if b then on_usage f (c.find_one k w) else c.find_one k w)
                      same)
              ∙ back (c.find_one k w) (λ u e. others u (ap (λ (j : Bytes). c.find_one j w) at ∙ e))
          | inr other ↦
              taken_out k
              ∙ ap (λ (b : Bool). if b then on_usage g (c.find_one k w1) else c.find_one k w1) other
              ∙ put_in k
              ∙ ap (λ (b : Bool). if b then on_usage f (c.find_one k w) else c.find_one k w) other
        ],
      )
    where
      back :
          (o : Option Usage)
          → ((u : Usage) → o ≡ some u → All (λ t. has_text t more ≡ false) u.items)
          → on_usage
              (λ u. record u { items = pull_each more u.items })
              (on_usage (λ u. record u { items = add_each more u.items }) o)
            ≡ o
      back none h = refl
      back (some u) h =
          ap (λ (l : List Bytes). some (record u { items = l }))
            (pull_each-add_each more u.items (h u refl))
