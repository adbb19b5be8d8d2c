-- ===== src/Quota/Clients/Kept.antt =====
-- What holds in every state that the goroutines reach.
use docker_stuff.Base.{ℕ, ◌≡◌, ◌≢◌, refl, sym, ap, none, some, Bytes}
use docker_stuff.Quota.{Collection, create, release, set, unlock}
use docker_stuff.Quota.Documented.{Documented}
use docker_stuff.Quota.Clients.{
  waiting, adding, leaving, holds, System, Step, call, take, refuse, accept, add, leave, released,
  raised, created, Kept, Reach, start, next, Inv,
}
use docker_stuff.Quota.Clients.Worlds.{release-Roomier, set-Roomier, create-Roomier}
use docker_stuff.Quota.Clients.Locks.{unlock_held}
use docker_stuff.Quota.Clients.Steps.{
  start-Inv, moved, loosened_world, accepted-Room, taken, left, added,
}

module _ {W : Type 0} (c : Collection W) where
  module _ (documented : Documented c) where
    Step-Inv : (s t : System c) → Inv c s → Step c s t → Inv c t
    Step-Inv s _ inv (call i owner more e) =
        moved c s i (waiting owner more) (ap holds (sym e)) tt inv
    Step-Inv s _ inv (take i owner more l e got) = taken c s i owner more l e got inv
    Step-Inv s _ inv (refuse i owner more x e refused) =
        moved c s i (leaving owner) (ap holds (sym e)) tt inv
    Step-Inv s _ inv (accept i owner more e accepted) =
        moved c s i (adding owner more) (ap holds (sym e))
          (accepted-Room c owner more s.world (c.find_one owner s.world) refl inv.kept accepted) inv
    Step-Inv s _ inv (add i owner more e) = added c documented s i owner more e inv
    Step-Inv s _ inv (leave i owner l e freed) = left c s i owner l e freed inv
    Step-Inv s _ inv (released owner gone) =
        loosened_world c s (release c owner gone s.world).1
          (release-Roomier c documented owner gone s.world inv.kept) inv
    Step-Inv s _ inv (raised owner value small higher) =
        loosened_world c s (set c owner value s.world).1
          (set-Roomier c documented owner value s.world small higher inv.kept) inv
    Step-Inv s _ inv (created owner limit small) =
        loosened_world c s (create c owner limit s.world).1
          (create-Roomier c documented owner limit s.world small inv.kept) inv

    pub Reach-Inv : (w : W) (s : System c) → Kept c w → Reach c w s → Inv c s
    Reach-Inv w _ kept start = start-Inv c w kept
    Reach-Inv w t kept (next {s} r step) = Step-Inv s t (Reach-Inv w s kept r) step

    -- If the database does what it documents, and at first no owner has more items than a limit
    -- below 2 ^ 63, then in every state that any number of goroutines in Reserve reach, between
    -- calls of Release, of Create and of Set with limits that are no lower, and with errors of
    -- the database that made their change or not, no owner has more items than its limit, no two
    -- goroutines have the mutex of one owner, and none that has one panics when it unlocks it.
    pub Reach-Kept :
        (w : W) (s : System c)
        → Kept c w
        → Reach c w s
        → Kept c s.world
          × ((i j : ℕ) (k : Bytes) → holds (s.pc i) ≡ some k → holds (s.pc j) ≡ some k → i ≡ j)
          × ((i : ℕ) (k : Bytes) → holds (s.pc i) ≡ some k → unlock k s.locks ≢ none)
    Reach-Kept w s kept r =
        let inv = Reach-Inv w s kept r in
        (inv.kept, inv.alone, λ i k h. unlock_held k s.locks (inv.busy i k h))
