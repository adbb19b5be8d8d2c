-- ===== src/Network/IpAllocator/Clients.antt =====
-- The allocator among its clients: any number of goroutines call `Acquire`, and give back what they
-- hold by `Release`, in any order.
use docker_stuff.Base.{
  ℕ, ◌^◌, ◌==◌, ◌≡◌, ◌≢◌, ◌⊎◌, ◌↔◌, inl, inr, ◌||◌, true, false, List, [], ◌∷◌, contains, remove,
  arith, refl, sym, ap, Bool-cases, ◌∙◌, contains-remove, contains-cons, ==_iff, ◌≤◌, ◌<◌,
}
use mathlib.Core.Path.{subst}
use native.Mathlib.Decide.{ℕ_discrete}
use docker_stuff.Network.Ip.{IpNet, IsIpNet, ip_to_int, int_to_ip}
use docker_stuff.Network.Ip.Words.{ip_to_int-int_to_ip}
use docker_stuff.Network.IpAllocator.{
  IpAllocator, own_ip, max_pos, acquire, release, new_ip_allocator,
}
use docker_stuff.Network.IpAllocator.Offers.{
  host, IsHost, IsTakenHost, IsValid, acquire-IsFresh, acquire_failed_iff, acquire_failed-in_use,
  acquire-IsValid, acquire-network,
}
use docker_stuff.Network.IpAllocator.Releases.{
  release-IsValid, release-network, release-in_use, host-lt,
}

-- The addresses that clients hold, as numbers.
pub record System : Type 0 where
  pub alloc : IpAllocator
  pub held : List ℕ

abbrev pub network : System → IpNet
network s = s.alloc.network

pub data Step : System → System → Type 0 where
  acquired :
      (s : System)
      → (acquire s.alloc).0.failed ≡ false
      → Step s
          (record { alloc = (acquire s.alloc).1; held = ip_to_int (acquire s.alloc).0.ip ∷ s.held })
  refused :
      (s : System)
      → (acquire s.alloc).0.failed ≡ true
      → Step s (record { alloc = (acquire s.alloc).1; held = s.held })
  released :
      (s : System) (x : ℕ)
      → contains s.held x ≡ true
      → Step s (record { alloc = release (int_to_ip x) s.alloc; held = remove s.held x })

pub data Reach (n : IpNet) : System → Type 0 where
  start : Reach n (record { alloc = new_ip_allocator n; held = [] })
  next : {s t : System} → Reach n s → Step s t → Reach n t

abbrev pub Distinct : List ℕ → Type 0
Distinct [] = Unit
Distinct (x ∷ xs) = (contains xs x ≡ false) × Distinct xs

-- A host address of the network that is not the network's own.
abbrev pub IsLease : IpNet → ℕ → Type 0
IsLease n x = (i : ℕ) × IsHost n i × (x ≡ host n i) × (x ≢ own_ip n)

pub record Inv (n : IpNet) (s : System) : Type 0 where
  pub same : network s ≡ n
  pub valid : IsValid s.alloc
  pub distinct : Distinct s.held
  pub leases : (x : ℕ) → contains s.held x ≡ true → IsLease n x
  pub marked : (x : ℕ) → x ≢ own_ip n → contains s.alloc.in_use x ≡ contains s.held x

Distinct-remove : (xs : List ℕ) (a : ℕ) → Distinct xs → Distinct (remove xs a)
unfolding remove
Distinct-remove [] a d = d
Distinct-remove (x ∷ xs) a d = ground (arith, Distinct-remove xs a d.1, contains-remove xs a x)

start-Inv :
    (n : IpNet)
    → IsIpNet n
    → 2 ≤ max_pos n
    → max_pos n < 2 ^ 31
    → Inv n (record { alloc = new_ip_allocator n; held = [] })
unfolding new_ip_allocator contains
start-Inv n f two small = record {
  same = refl;
  valid = record { fits = f; two = two; small = small; pos_ok = omega (arith, two) };
  distinct = tt;
  leases = λ x h. cc;
  marked = λ x ne. refl;
}

leases_cons :
    (n : IpNet) (x : ℕ) (held : List ℕ)
    → IsLease n x
    → ((y : ℕ) → contains held y ≡ true → IsLease n y)
    → (y : ℕ) → contains (x ∷ held) y ≡ true
    → IsLease n y
leases_cons n x held lease others y h = elim (Bool-cases (x == y)) [
  | inl e ↦ rw ((==_iff x y).0 e) at lease
  | inr ne ↦ others y (ground (arith, contains-cons held x y))
]

-- What a client receives is not held by another.
acquired-Inv :
    {n : IpNet} (s : System)
    → (acquire s.alloc).0.failed ≡ false
    → Inv n s
    → Inv n
        (record { alloc = (acquire s.alloc).1; held = ip_to_int (acquire s.alloc).0.ip ∷ s.held })
acquired-Inv {n} s ok v =
    let f = acquire-IsFresh s.alloc v.valid ok in
    let x : ℕ = host s.alloc.network f.at in
    let number : ip_to_int (acquire s.alloc).0.ip ≡ x =
      rw f.address (ip_to_int-int_to_ip x (host-lt s.alloc.network f.at)) in
    let other : x ≢ own_ip n = rw (← v.same) f.was_free.0 in
    record {
      same = acquire-network s.alloc ∙ v.same;
      valid = acquire-IsValid s.alloc v.valid;
      distinct = (rw number (sym (v.marked x other) ∙ f.was_free.1), v.distinct);
      leases = rw number (
          leases_cons n x s.held
            (subst (λ m. IsLease m x) v.same (f.at, f.is_host, refl, f.was_free.0)) v.leases);
      marked = λ y ne.
          rw (number, contains-cons s.held x y)
            (f.now_used y ∙ ap (λ b. x == y || b) (v.marked y ne));
    }

refused-Inv :
    {n : IpNet} (s : System)
    → (acquire s.alloc).0.failed ≡ true
    → Inv n s
    → Inv n (record { alloc = (acquire s.alloc).1; held = s.held })
refused-Inv {n} s failed v = record {
  same = acquire-network s.alloc ∙ v.same;
  valid = acquire-IsValid s.alloc v.valid;
  distinct = v.distinct;
  leases = v.leases;
  marked = λ x ne. acquire_failed-in_use s.alloc v.valid failed x (rw v.same ne) ∙ v.marked x ne;
}

released-Inv :
    {n : IpNet} (s : System) (x : ℕ)
    → contains s.held x ≡ true
    → Inv n s
    → Inv n (record { alloc = release (int_to_ip x) s.alloc; held = remove s.held x })
released-Inv {n} s x h v =
    let (i, is_host, e, ne) = v.leases x h in
    let at : x ≡ host s.alloc.network i = rw v.same e in
    record {
      same = release-network s.alloc _ ∙ v.same;
      valid = rw at (release-IsValid s.alloc i v.valid (rw v.same is_host));
      distinct = Distinct-remove s.held x v.distinct;
      leases = λ y hy. v.leases y (ground (arith, contains-remove s.held x y));
      marked = λ y other. rw at (
          release-in_use s.alloc i y
          ∙ ground (arith, v.marked y other, contains-remove s.held (host s.alloc.network i) y));
    }

Step-Inv : {n : IpNet} {s t : System} → Step s t → Inv n s → Inv n t
Step-Inv (acquired s ok) v = acquired-Inv s ok v
Step-Inv (refused s failed) v = refused-Inv s failed v
Step-Inv (released s x h) v = released-Inv s x h v

Reach-Inv :
    {n : IpNet} {s : System} → IsIpNet n → 2 ≤ max_pos n → max_pos n < 2 ^ 31 → Reach n s → Inv n s
Reach-Inv {n} f two small start = start-Inv n f two small
Reach-Inv f two small (next r st) = Step-Inv st (Reach-Inv f two small r)

-- In a reachable system the marks and the addresses held are the same, off the network's own.
taken_iff :
    (n : IpNet) (s : System) (x : ℕ)
    → Inv n s
    → IsTakenHost s.alloc x ↔ ((x ≡ own_ip s.alloc.network) ⊎ (contains s.held x ≡ true))
taken_iff n s x v = elim (ℕ_discrete x (own_ip s.alloc.network)) [
  | yes e ↦ (λ _. inl e, λ _. inl e)
  | no ne ↦
      let same = v.marked x (rw (← v.same) ne) in
      (
        elim [ inl e ↦ inl e | inr c ↦ inr (sym same ∙ c) ],
        elim [ inl e ↦ inl e | inr c ↦ inr (same ∙ c) ],
      )
]

-- Every host address but the network's own is held.
abbrev pub AllHeld : IpNet → List ℕ → Type 0
AllHeld n held = (i : ℕ) → IsHost n i → (host n i ≡ own_ip n) ⊎ (contains held (host n i) ≡ true)

failed_iff_held :
    (n : IpNet) (s : System)
    → Inv n s
    → ((acquire s.alloc).0.failed ≡ true) ↔ AllHeld s.alloc.network s.held
failed_iff_held n s v =
    let (only_if, if_all) = acquire_failed_iff s.alloc v.valid in
    (
      λ e i h. (taken_iff n s _ v).0 (only_if e i h),
      λ all. if_all (λ i h. (taken_iff n s _ v).1 (all i h)),
    )

-- In every state that the allocator of a well-formed network with at least two and fewer than 2
-- ^ 31 positions reaches with its clients, the addresses held are pairwise distinct host
-- addresses of the network, none of them the network's own, and Acquire fails exactly if every
-- other host address is held.
pub clients_share :
    (n : IpNet) (s : System)
    → IsIpNet n
    → 2 ≤ max_pos n
    → max_pos n < 2 ^ 31
    → Reach n s
    → Distinct s.held
      × ((x : ℕ) → contains s.held x ≡ true → IsLease n x)
      × (((acquire s.alloc).0.failed ≡ true) ↔ AllHeld n s.held)
clients_share n s f two small r =
    let v = Reach-Inv f two small r in
    (
      v.distinct,
      v.leases,
      subst (λ m. ((acquire s.alloc).0.failed ≡ true) ↔ AllHeld m s.held) v.same
          (failed_iff_held n s v),
    )
