-- ===== src/Network/IpAllocator/Search.antt =====
-- The search of `run`: it stops at the first free address in the order in which it visits them.
use docker_stuff.Base.{
  ℕ, zero, suc, ◌+◌, ◌%◌, ◌^◌, ◌≤◌, ◌<◌, ◌==◌, ◌≡◌, ◌≢◌, ◌⊎◌, inl, inr, Bool, true, false, List,
  contains, arith, refl, Bool-cases, ==_iff,
}
use docker_stuff.Network.IpAllocator.{Offer, search, rem_int32}
use docker_stuff.Network.IpAllocator.Positions.{
  address, InRange, IsFree, IsTaken, visit, next_range,
}

module _ (base own max : ℕ) (used : List ℕ) where
  pub record Found (r : Offer) : Type 0 where
    pub at : ℕ
    pub in_range : InRange max at
    pub number : r.new_num ≡ address base at
    pub free : IsFree own used (address base at)
    pub is_ok : r.exhausted ≡ false
    pub goes_on : r.next_pos ≡ at % max + 1

  pub record GaveUp (left : ℕ) (o r : Offer) : Type 0 where
    pub taken : (j : ℕ) → j < left → IsTaken own used (address base (visit max o.next_pos j))
    pub stays : o.exhausted ≡ true → r.exhausted ≡ true
    pub flagged :
        (j : ℕ) → j < left → address base (visit max o.next_pos j) ≢ own → r.exhausted ≡ true
    pub in_range : InRange max r.next_pos
    pub last : 0 < left ⊎ IsTaken own used o.new_num → IsTaken own used r.new_num

  module _ (two : 2 ≤ max) (small : max < 2 ^ 31) where
    next_pos : (p : ℕ) → InRange max p → (rem_int32 p max + 1) % 2 ^ 32 ≡ p % max + 1
    unfolding rem_int32
    next_pos p h = grind arith

    extend :
        (left : ℕ) (o o' r : Offer)
        → o'.next_pos ≡ o.next_pos % max + 1
        → o'.new_num ≡ address base o.next_pos
        → IsTaken own used (address base o.next_pos)
        → (o.exhausted ≡ true → o'.exhausted ≡ true)
        → (address base o.next_pos ≢ own → o'.exhausted ≡ true)
        → GaveUp left o' r
        → GaveUp (suc left) o r
    unfolding visit
    extend left o o' r ep en t keep flag g = record {
      taken = λ j.
          elim j as (λ k. k < suc left → IsTaken own used (address base (visit max o.next_pos k))) [
            | zero ↦ λ lt. t
            | suc k ↦ λ lt. rw (← ep) (g.taken k (omega arith))
          ];
      stays = λ e. g.stays (keep e);
      flagged = λ j.
          elim j
            as (λ k.
              k < suc left → address base (visit max o.next_pos k) ≢ own → r.exhausted ≡ true) [
                | zero ↦ λ lt ne. g.stays (flag ne)
                | suc k ↦ λ lt ne. g.flagged k (omega arith) (rw ep ne)
              ];
      in_range = g.in_range;
      last = λ h. g.last (inr (rw en t));
    }

    -- the state after an attempt that did not find
    after : Offer → Bool → Offer
    after o e = record {
      next_pos = (rem_int32 o.next_pos max + 1) % 2 ^ 32;
      new_num = address base o.next_pos;
      exhausted = e;
    }

    skip_own :
        (left : ℕ) (o : Offer)
        → address base o.next_pos ≡ own
        → search base own max used (suc left) o
          ≡ search base own max used left (after o o.exhausted)
    unfolding search after
    skip_own left o e = rw ((==_iff _ _).1 e)

    skip_used :
        (left : ℕ) (o : Offer)
        → (address base o.next_pos == own) ≡ false
        → contains used (address base o.next_pos) ≡ true
        → search base own max used (suc left) o ≡ search base own max used left (after o true)
    unfolding search after
    skip_used left o ne e = rw (ne, e)

    stop_free :
        (left : ℕ) (o : Offer)
        → (address base o.next_pos == own) ≡ false
        → contains used (address base o.next_pos) ≡ false
        → search base own max used (suc left) o ≡ after o false
    unfolding search after
    stop_free left o ne e = rw (ne, e)

    -- The first attempt finds a free address.
    pub search_first :
        (left : ℕ) (o : Offer)
        → 0 < left
        → IsFree own used (address base o.next_pos)
        → (search base own max used left o).new_num ≡ address base o.next_pos
          × ((search base own max used left o).exhausted ≡ false)
    unfolding after
    search_first zero o h f = absurd (omega arith)
    search_first (suc left) o h f = rw (stop_free left o (ground arith) f.1) (refl, refl)

    pub search_lem :
        (left : ℕ) (o : Offer)
        → InRange max o.next_pos
        → Found (search base own max used left o) ⊎ GaveUp left o (search base own max used left o)
    unfolding after
    search_lem zero o h =
        unfold search in
        inr (record {
          taken = λ j lt. absurd (omega arith);
          stays = λ e. e;
          flagged = λ j lt. absurd (omega arith);
          in_range = h;
          last = elim [ inl lt ↦ absurd (omega arith) | inr t ↦ t ];
        })
    search_lem (suc left) o h =
        let step = next_pos o.next_pos h in
        let range = next_range max two o.next_pos in
        elim (Bool-cases (address base o.next_pos == own)) [
          | inl e ↦
              let own_at = (==_iff _ _).0 e in
              rw (skip_own left o own_at)
                (elim (search_lem left (after o o.exhausted) (rw step range)) [
                  | inl f ↦ inl f
                  | inr g ↦ inr (
                      extend left o (after o o.exhausted) _ step refl (inl own_at) (λ k. k)
                        (λ ne. absurd (ne own_at)) g)
                ])
          | inr ne ↦ elim (Bool-cases (contains used (address base o.next_pos))) [
            | inl e ↦
                rw (skip_used left o ne e) (elim (search_lem left (after o true) (rw step range)) [
                  | inl f ↦ inl f
                  | inr g ↦
                      inr
                        (extend left o (after o true) _ step refl (inr e) (λ _. refl) (λ _. refl) g)
                ])
            | inr e ↦ rw (stop_free left o ne e) (
                inl (record {
                  at = o.next_pos;
                  in_range = h;
                  number = refl;
                  free = (ground arith, e);
                  is_ok = refl;
                  goes_on = step;
                }))
          ]
        ]
