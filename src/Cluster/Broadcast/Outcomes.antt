-- ===== src/Cluster/Broadcast/Outcomes.antt =====
-- Which outcomes a call of `runOnNodes` can have.
use docker_stuff.Base.{
  ◌≡◌, ◌↔◌, refl, sym, ap, ◌∙◌, Bool, true, false, List, [], ◌∷◌, ◌++◌, append-nil, append_assoc,
  inl, inr,
}
use mathlib.Core.Path.{subst}
use docker_stuff.Cluster.Broadcast.{
  Reply, value, status_not_found, expected_error, other_error, Outcome, returned, an_error,
  error_not_found, Run, sent, started, Step, end, Reach, stay, after, Choice, wait_value,
  wait_error, wait_default, a_value, one_error, finished_value, finished_default, Returns,
}
use docker_stuff.Cluster.Broadcast.Queues.{In, In-parts, Faithful, Reach-Faithful}

head-In : {A : Type 0} (l more : List A) (x : A) → l ≡ x ∷ more → In x l
head-In l more x e = subst (In x) (sym e) (inl refl)

-- A list that holds nothing
empty_list : {A : Type 0} (l : List A) → ((x : A) → In x l → ⊥) → l ≡ []
empty_list [] h = refl
empty_list (x ∷ l) h = elim (h x (inl refl)) [ ]

module _ {V E : Type 0} where
  abbrev pub NoValue : List (Reply V E) → Type 0
  NoValue replies = (v : V) → In (value v) replies → ⊥

  abbrev pub NoError : List (Reply V E) → Type 0
  NoError replies = (e : E) → In (other_error e) replies → ⊥

  -- A value or an error that a node gave. Without `wait`, nothing is found where no node gave a
  -- value; with it, where no node gave another error either.
  abbrev pub Allowed : List (Reply V E) → Bool → Outcome V E → Type 0
  Allowed replies wait (returned v) = In (value v) replies
  Allowed replies wait (an_error e) = In (other_error e) replies
  Allowed replies true error_not_found = NoValue replies × NoError replies
  Allowed replies false error_not_found = NoValue replies

  no_pending-NoValue :
      (replies : List (Reply V E)) (s : Run V E)
      → Faithful replies s
      → s.pending ≡ []
      → s.results ≡ []
      → NoValue replies
  no_pending-NoValue replies s inv done empty v i = elim (inv.values_kept v i) [
    | inl p ↦ subst (In (value v)) done p
    | inr r ↦ subst (In v) empty r
  ]

  Choice-Allowed :
      (replies : List (Reply V E)) (s : Run V E) (wait : Bool) (o : Outcome V E)
      → Faithful replies s
      → Choice s wait o
      → Allowed replies wait o
  Choice-Allowed replies s _ _ inv (wait_value v more done e) =
      inv.results_from v (head-In s.results more v e)
  Choice-Allowed replies s _ _ inv (wait_error x more done e) =
      inv.errors_from x (head-In s.errors more x e)
  Choice-Allowed replies s _ _ inv (wait_default done empty clean) = (
    no_pending-NoValue replies s inv done empty,
    λ x i. elim (inv.errors_kept x i) [
      | inl p ↦ subst (In (other_error x)) done p
      | inr r ↦ subst (In x) clean r
    ],
  )
  Choice-Allowed replies s _ _ inv (a_value v more e) =
      inv.results_from v (head-In s.results more v e)
  Choice-Allowed replies s _ _ inv (one_error x more e) =
      inv.errors_from x (head-In s.errors more x e)
  Choice-Allowed replies s _ _ inv (finished_value v more done e) =
      inv.results_from v (head-In s.results more v e)
  Choice-Allowed replies s _ _ inv (finished_default done empty) =
      no_pending-NoValue replies s inv done empty

  before : (s t u : Run V E) → Step s t → Reach t u → Reach s u
  before s t _ step stay = after stay step
  before s t u step (after {t = v} reached last) = after (before s t v step reached) last

  -- A run goes on to its end, and only adds to the channels.
  record Ended (s : Run V E) : Type 0 where
    at : Run V E
    reached : Reach s at
    done : at.pending ≡ []
    results_more : List V
    results_are : at.results ≡ s.results ++ results_more
    errors_more : List E
    errors_are : at.errors ≡ s.errors ++ errors_more

  Sending : Run V E → Run V E → Type 0
  Sending s t =
      ((vs : List V) × (t.results ≡ s.results ++ vs))
      × ((es : List E) × (t.errors ≡ s.errors ++ es))

  sent-Sending :
      (r : Reply V E) (s : Run V E) → Sending s (sent r s) × ((sent r s).pending ≡ s.pending)
  unfolding Sending
  sent-Sending (value v) s = (((v ∷ [], refl), ([], sym (append-nil s.errors))), refl)
  sent-Sending status_not_found s =
      ((([], sym (append-nil s.results)), ([], sym (append-nil s.errors))), refl)
  sent-Sending expected_error s =
      ((([], sym (append-nil s.results)), ([], sym (append-nil s.errors))), refl)
  sent-Sending (other_error e) s = ((([], sym (append-nil s.results)), (e ∷ [], refl)), refl)

  ended_from : (l : List (Reply V E)) (s : Run V E) → s.pending ≡ l → Ended s
  unfolding Sending
  ended_from [] s e = record {
    at = s;
    reached = stay;
    done = e;
    results_more = [];
    results_are = sym (append-nil s.results);
    errors_more = [];
    errors_are = sym (append-nil s.errors);
  }
  ended_from (r ∷ l) s e =
      let s' : Run V E = record s { pending = l } in
      let ((vs, es), same) = sent-Sending r s' in
      let later = ended_from l (sent r s') same in
      record {
        at = later.at;
        reached = before s (sent r s') later.at (end [] l r e) later.reached;
        done = later.done;
        results_more = vs.0 ++ later.results_more;
        results_are =
            later.results_are
            ∙ ap (λ (q : List V). q ++ later.results_more) vs.1
            ∙ append_assoc s.results vs.0 later.results_more;
        errors_more = es.0 ++ later.errors_more;
        errors_are =
            later.errors_are
            ∙ ap (λ (q : List E). q ++ later.errors_more) es.1
            ∙ append_assoc s.errors es.0 later.errors_more;
      }

  -- The goroutine with a reply ends first.
  first_ends :
      (replies : List (Reply V E)) (r : Reply V E)
      → In r replies
      → (front : List (Reply V E)) × (back : List (Reply V E)) × Reach
          (started replies)
          (sent r (record { pending = front ++ back; results = []; errors = [] }))
  first_ends replies r i =
      let (front, back, e) = In-parts r replies i in (front, back, after stay (end front back r e))

  reach_on : (s t u : Run V E) → Reach s t → Reach t u → Reach s u
  reach_on s t _ r stay = r
  reach_on s t u r (after {t = v} reached last) = after (reach_on s t v r reached) last

  Allowed-Returns :
      (replies : List (Reply V E)) (wait : Bool) (o : Outcome V E)
      → Allowed replies wait o
      → Returns replies wait o
  Allowed-Returns replies false (returned v) i =
      let (front, back, reached) = first_ends replies (value v) i in
      record { run = _; reached = reached; choice = a_value v [] refl }
  Allowed-Returns replies false (an_error e) i =
      let (front, back, reached) = first_ends replies (other_error e) i in
      record { run = _; reached = reached; choice = one_error e [] refl }
  Allowed-Returns replies true (returned v) i =
      let (front, back, reached) = first_ends replies (value v) i in
      let s : Run V E = record { pending = front ++ back; results = v ∷ []; errors = [] } in
      let last = ended_from (front ++ back) s refl in
      record {
        run = last.at;
        reached = reach_on (started replies) s last.at reached last.reached;
        choice = wait_value v last.results_more last.done last.results_are;
      }
  Allowed-Returns replies true (an_error e) i =
      let (front, back, reached) = first_ends replies (other_error e) i in
      let s : Run V E = record { pending = front ++ back; results = []; errors = e ∷ [] } in
      let last = ended_from (front ++ back) s refl in
      record {
        run = last.at;
        reached = reach_on (started replies) s last.at reached last.reached;
        choice = wait_error e last.errors_more last.done last.errors_are;
      }
  Allowed-Returns replies false error_not_found none_there =
      let last = ended_from replies (started replies) refl in
      let inv = Reach-Faithful replies last.at last.reached in
      record {
        run = last.at;
        reached = last.reached;
        choice =
            finished_default last.done
              (empty_list last.at.results (λ v i. none_there v (inv.results_from v i)));
      }
  Allowed-Returns replies true error_not_found (none_there, clean) =
      let last = ended_from replies (started replies) refl in
      let inv = Reach-Faithful replies last.at last.reached in
      record {
        run = last.at;
        reached = last.reached;
        choice =
            wait_default last.done
              (empty_list last.at.results (λ v i. none_there v (inv.results_from v i)))
              (empty_list last.at.errors (λ e i. clean e (inv.errors_from e i)));
      }

  -- In whatever order the goroutines of runOnNodes end and whichever channel is chosen, what it
  -- can return for the replies of the nodes is exactly: a value that a node gave; an error that
  -- a node gave, other than those for what is not found; or the error for what is not found,
  -- without wait if no node gave a value, and with wait if moreover no node gave another error.
  pub Returns-Allowed :
      (replies : List (Reply V E)) (wait : Bool) (o : Outcome V E)
      → Returns replies wait o ↔ Allowed replies wait o
  Returns-Allowed replies wait o = (
    λ r. Choice-Allowed replies r.run wait o (Reach-Faithful replies r.run r.reached) r.choice,
    Allowed-Returns replies wait o,
  )
