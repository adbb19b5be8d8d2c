-- ===== src/Builder/Dockerfile/Safety.antt =====
-- Where a build panics.
use docker_stuff.Base.{◌≡◌, true, Bytes, All}
use docker_stuff.Text.Split.{contains_byte}
use docker_stuff.Builder.{BuildFile, Outside, M}
use docker_stuff.Builder.Create.Extends.{Valued}
use docker_stuff.Builder.Instructions.Sound.{HasValues, Fine}

module _ {W : Type 0} (o : Outside W) (valued : Valued o)
    (dollars : (s : Bytes) → All (λ m. contains_byte b'$' m ≡ true) (o.env_matches s)) where
  -- Every method is fine wherever the builder has values.
  abbrev FineMethod : Bytes × (Bytes → M W (Unit {0})) → Type 0
  FineMethod m = (args : Bytes) (b : BuildFile W) → HasValues b → Fine o (m.1 args b)
