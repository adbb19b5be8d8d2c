-- ===== src/App/Teams/Order.antt =====
-- `<` on strings is a strict linear order.
use docker_stuff.Base.{◌≡◌, refl, true, false, [], ◌∷◌, Bytes, arith}
use docker_stuff.TagStore.Tables.{less}

pub less_irreflexive : (s : Bytes) → less s s ≡ false
unfolding less
less_irreflexive [] = refl
less_irreflexive (a ∷ s) = ground (arith, less_irreflexive s)

-- What is no less than another, is no less than what that is no less than.
pub not_less_trans : (s t u : Bytes) → less t s ≡ false → less u t ≡ false → less u s ≡ false
unfolding less
not_less_trans [] [] u e d = d
not_less_trans [] (b ∷ t) u e d = refl
not_less_trans (a ∷ s) [] u e d = ground (arith, e, d)
not_less_trans (a ∷ s) (b ∷ t) [] e d = d
not_less_trans (a ∷ s) (b ∷ t) (x ∷ u) e d = ground (arith, not_less_trans s t u)

pub less_asym : (s t : Bytes) → less s t ≡ true → less t s ≡ false
unfolding less
less_asym s [] e = ground (arith, e)
less_asym [] (b ∷ t) e = refl
less_asym (a ∷ s) (b ∷ t) e = ground (arith, less_asym s t)

pub not_less-eq : (s t : Bytes) → less s t ≡ false → less t s ≡ false → s ≡ t
unfolding less
not_less-eq [] [] e d = refl
not_less-eq [] (b ∷ t) e d = ground (arith, e, d)
not_less-eq (a ∷ s) [] e d = ground (arith, e, d)
not_less-eq (a ∷ s) (b ∷ t) e d = ground (arith, not_less-eq s t)
