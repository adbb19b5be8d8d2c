-- ===== src/Cluster/Broadcast/Queues.antt =====
-- What stands in the channels comes from the nodes, and nothing is lost.
use docker_stuff.Base.{◌≡◌, ◌≢◌, ◌⊎◌, refl, sym, ap, List, [], ◌∷◌, ◌++◌, inl, inr}
use mathlib.Core.Path.{subst}
use docker_stuff.Cluster.Broadcast.{
  Reply, value, status_not_found, expected_error, other_error, Run, sent, started, end, Reach, stay,
  after,
}

module _ {A : Type 0} where
  abbrev pub In : A → List A → Type 0
  In x [] = ⊥
  In x (y ∷ l) = (y ≡ x) ⊎ In x l

  pub In-front : (x : A) (front back : List A) → In x front → In x (front ++ back)
  In-front x [] back i = elim i [ ]
  In-front x (y ∷ front) back (inl e) = inl e
  In-front x (y ∷ front) back (inr i) = inr (In-front x front back i)

  pub In-back : (x : A) (front back : List A) → In x back → In x (front ++ back)
  In-back x [] back i = i
  In-back x (y ∷ front) back i = inr (In-back x front back i)

  pub In-append : (x : A) (front back : List A) → In x (front ++ back) → In x front ⊎ In x back
  In-append x [] back i = inr i
  In-append x (y ∷ front) back (inl e) = inl (inl e)
  In-append x (y ∷ front) back (inr i) = elim (In-append x front back i) [
    | inl f ↦ inl (inr f)
    | inr b ↦ inr b
  ]

  -- Where an element stands
  pub In-parts :
      (x : A) (l : List A) → In x l → (front : List A) × (back : List A) × (l ≡ front ++ x ∷ back)
  In-parts x [] i = elim i [ ]
  In-parts x (y ∷ l) (inl e) = ([], l, ap (λ (z : A). z ∷ l) e)
  In-parts x (y ∷ l) (inr i) =
      let (front, back, e) = In-parts x l i in (y ∷ front, back, ap (λ (m : List A). y ∷ m) e)

  pub In-rest : (x r : A) (front back : List A) → In x (front ++ back) → In x (front ++ r ∷ back)
  In-rest x r front back i = elim (In-append x front back i) [
    | inl f ↦ In-front x front (r ∷ back) f
    | inr b ↦ In-back x front (r ∷ back) (inr b)
  ]

  pub In-taken :
      (x r : A) (front back : List A) → In x (front ++ r ∷ back) → (r ≡ x) ⊎ In x (front ++ back)
  In-taken x r front back i = elim (In-append x front (r ∷ back) i) [
    | inl f ↦ inr (In-front x front back f)
    | inr (inl e) ↦ inl e
    | inr (inr b) ↦ inr (In-back x front back b)
  ]

module _ {V E : Type 0} (replies : List (Reply V E)) where
  pub record Faithful (s : Run V E) : Type 0 where
    pub waiting : (r : Reply V E) → In r s.pending → In r replies
    pub results_from : (v : V) → In v s.results → In (value v) replies
    pub errors_from : (e : E) → In e s.errors → In (other_error e) replies
    pub values_kept : (v : V) → In (value v) replies → In (value v) s.pending ⊎ In v s.results
    pub errors_kept :
        (e : E) → In (other_error e) replies → In (other_error e) s.pending ⊎ In e s.errors

  started-Faithful : Faithful (started replies)
  started-Faithful = record {
    waiting = λ r i. i;
    results_from = λ v i. elim i [ ];
    errors_from = λ e i. elim i [ ];
    values_kept = λ v i. inl i;
    errors_kept = λ e i. inl i;
  }

  module _ (s : Run V E) (inv : Faithful s) (front back : List (Reply V E)) where
    abbrev rest : Run V E
    rest = record s { pending = front ++ back }

    -- The goroutine that ends had a reply of a node.
    taken_from : (r : Reply V E) → s.pending ≡ front ++ r ∷ back → In r replies
    taken_from r e = inv.waiting r (subst (In r) (sym e) (In-back r front (r ∷ back) (inl refl)))

    fewer : (r x : Reply V E) → s.pending ≡ front ++ r ∷ back → In x (front ++ back) → In x replies
    fewer r x e i = inv.waiting x (subst (In x) (sym e) (In-rest x r front back i))

    -- A reply that another goroutine has is still to come.
    value_waits :
        (r : Reply V E) (v : V)
        → s.pending ≡ front ++ r ∷ back
        → r ≢ value v
        → In (value v) replies
        → In (value v) (front ++ back) ⊎ In v s.results
    value_waits r v e other i = elim (inv.values_kept v i) [
      | inr there ↦ inr there
      | inl p ↦ elim (In-taken (value v) r front back (subst (In (value v)) e p)) [
        | inl same ↦ elim (other same) [ ]
        | inr left ↦ inl left
      ]
    ]

    error_waits :
        (r : Reply V E) (x : E)
        → s.pending ≡ front ++ r ∷ back
        → r ≢ other_error x
        → In (other_error x) replies
        → In (other_error x) (front ++ back) ⊎ In x s.errors
    error_waits r x e other i = elim (inv.errors_kept x i) [
      | inr there ↦ inr there
      | inl p ↦ elim (In-taken (other_error x) r front back (subst (In (other_error x)) e p)) [
        | inl same ↦ elim (other same) [ ]
        | inr left ↦ inl left
      ]
    ]

    sent-Faithful : (r : Reply V E) → s.pending ≡ front ++ r ∷ back → Faithful (sent r rest)
    sent-Faithful (value v) e = record {
      waiting = λ x i. fewer (value v) x e i;
      results_from = λ u i. elim (In-append u s.results (v ∷ []) i) [
        | inl old ↦ inv.results_from u old
        | inr (inl same) ↦ subst (λ (x : V). In (value x) replies) same (taken_from (value v) e)
        | inr (inr none_left) ↦ elim none_left [ ]
      ];
      errors_from = inv.errors_from;
      values_kept = λ u i. elim (inv.values_kept u i) [
        | inr there ↦ inr (In-front u s.results (v ∷ []) there)
        | inl p ↦ elim (In-taken (value u) (value v) front back (subst (In (value u)) e p)) [
          | inl same ↦ inr (In-back u s.results (v ∷ []) (inl (value_inj v u same)))
          | inr left ↦ inl left
        ]
      ];
      errors_kept = λ x i. error_waits (value v) x e (λ d. cc) i;
    }
      where
        value_inj : (v u : V) → ◌≡◌ {A = Reply V E} (value v) (value u) → v ≡ u
        value_inj v u d = cc
    sent-Faithful status_not_found e = record {
      waiting = λ x i. fewer status_not_found x e i;
      results_from = inv.results_from;
      errors_from = inv.errors_from;
      values_kept = λ u i. value_waits status_not_found u e (λ d. cc) i;
      errors_kept = λ x i. error_waits status_not_found x e (λ d. cc) i;
    }
    sent-Faithful expected_error e = record {
      waiting = λ x i. fewer expected_error x e i;
      results_from = inv.results_from;
      errors_from = inv.errors_from;
      values_kept = λ u i. value_waits expected_error u e (λ d. cc) i;
      errors_kept = λ x i. error_waits expected_error x e (λ d. cc) i;
    }
    sent-Faithful (other_error y) e = record {
      waiting = λ x i. fewer (other_error y) x e i;
      results_from = inv.results_from;
      errors_from = λ x i. elim (In-append x s.errors (y ∷ []) i) [
        | inl old ↦ inv.errors_from x old
        | inr (inl same) ↦
            subst (λ (z : E). In (other_error z) replies) same (taken_from (other_error y) e)
        | inr (inr none_left) ↦ elim none_left [ ]
      ];
      values_kept = λ u i. value_waits (other_error y) u e (λ d. cc) i;
      errors_kept = λ x i. elim (inv.errors_kept x i) [
        | inr there ↦ inr (In-front x s.errors (y ∷ []) there)
        | inl p ↦
            elim (In-taken (other_error x) (other_error y) front back
              (subst (In (other_error x)) e p)) [
                | inl same ↦ inr (In-back x s.errors (y ∷ []) (inl (error_inj y x same)))
                | inr left ↦ inl left
              ]
      ];
    }
      where
        error_inj : (v u : E) → ◌≡◌ {A = Reply V E} (other_error v) (other_error u) → v ≡ u
        error_inj v u d = cc

  pub Reach-Faithful : (s : Run V E) → Reach (started replies) s → Faithful s
  Reach-Faithful _ stay = started-Faithful
  Reach-Faithful _ (after {t} reached (end front back r e)) =
      sent-Faithful t (Reach-Faithful t reached) front back r e
