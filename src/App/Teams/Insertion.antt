-- ===== src/App/Teams/Insertion.antt =====
-- What the loop of `Grant` writes.
use docker_stuff.Base.{
  ℕ, suc, ◌-◌, ◌≡◌, refl, sym, ap, ◌∙◌, List, [], ◌∷◌, ◌++◌, append_assoc, append-nil, some, Bytes,
  length, length-append, get_elem?, arith,
}
use mathlib.Core.Path.{subst}
use docker_stuff.App.Teams.{put_at, shift, insert_in, insert_at}

-- As often as there are teams, the first of them.
abbrev pub fill : Bytes → List Bytes → List Bytes
fill t [] = []
fill t (u ∷ teams) = t ∷ fill t teams

abbrev pub copies : List Bytes → List Bytes
copies [] = []
copies (t ∷ teams) = t ∷ fill t teams

get_elem-middle :
    (front back : List Bytes) (t : Bytes) → get_elem? (front ++ t ∷ back) (length front) ≡ some t
get_elem-middle [] back t = refl
get_elem-middle (u ∷ front) back t = get_elem-middle front back t

put_at-middle :
    (front back : List Bytes) (t x : Bytes)
    → put_at (length front) x (front ++ t ∷ back) ≡ some (front ++ x ∷ back)
unfolding put_at
put_at-middle [] back t x = refl
put_at-middle (u ∷ front) back t x = rw (put_at-middle front back t x) refl

put_at-next :
    (front back : List Bytes) (t u x : Bytes)
    → put_at (suc (length front)) x (front ++ t ∷ u ∷ back) ≡ some (front ++ t ∷ x ∷ back)
unfolding put_at
put_at-next [] back t u x = refl
put_at-next (v ∷ front) back t u x = rw (put_at-next front back t u x) refl

-- The loop writes the first team over all behind it.
shift-fill :
    (front back : List Bytes) (t : Bytes)
    → shift (length back) (length front) t (front ++ t ∷ back) ≡ some (front ++ t ∷ fill t back)
unfolding shift
shift-fill front [] t = refl
shift-fill front (u ∷ back) t =
    rw (get_elem-middle front (u ∷ back) t, put_at-next front back t u t, shift)
      (subst
        (λ (n : ℕ).
          shift (length back) n t (front ++ t ∷ t ∷ back) ≡ some (front ++ t ∷ t ∷ fill t back))
        (length-append front (t ∷ []) ∙ omega arith)
        (subst
          (λ (l : List Bytes).
            shift (length back) (length (front ++ t ∷ [])) t l
            ≡ some (front ++ t ∷ t ∷ fill t back))
          (append_assoc front (t ∷ []) (t ∷ back))
          (shift-fill (front ++ t ∷ []) back t
            ∙ ap some (append_assoc front (t ∷ []) (t ∷ fill t back)))))

insert_in-fill :
    (front back : List Bytes) (t name : Bytes)
    → insert_in (length back) (length front) name (front ++ t ∷ back)
      ≡ some (front ++ name ∷ fill t back)
unfolding insert_in
insert_in-fill front back t name =
    rw (get_elem-middle front back t, insert_in)
      (rw (shift-fill front back t) (put_at-middle front (fill t back) t name))

fill-longer : (t u : Bytes) (teams : List Bytes) → fill t (teams ++ u ∷ []) ≡ t ∷ fill t teams
fill-longer t u [] = refl
fill-longer t u (v ∷ teams) = ap (λ (l : List Bytes). t ∷ l) (fill-longer t u teams)

-- The new team, over the first of those from there on.
pub insert_at-exact :
    (front back : List Bytes) (name : Bytes)
    → insert_at (length front) name (front ++ back) ≡ some (front ++ name ∷ copies back)
insert_at-exact front [] name =
    subst
      (λ (l : List Bytes).
        insert_in (length l - length front) (length front) name (l ++ [] ∷ [])
        ≡ some (front ++ name ∷ []))
      (sym (append-nil front))
      (subst
        (λ (n : ℕ). insert_in n (length front) name (front ++ [] ∷ []) ≡ some (front ++ name ∷ []))
        (omega arith) (insert_in-fill front [] [] name))
insert_at-exact front (t ∷ back) name =
    subst
      (λ (n : ℕ).
        insert_in n (length front) name ((front ++ t ∷ back) ++ [] ∷ [])
        ≡ some (front ++ name ∷ t ∷ fill t back))
      (omega (arith, length-append back ([] ∷ []), length-append front (t ∷ back)))
      (subst
        (λ (l : List Bytes).
          insert_in (length (back ++ [] ∷ [])) (length front) name l
          ≡ some (front ++ name ∷ t ∷ fill t back))
        (sym (append_assoc front (t ∷ back) ([] ∷ [])))
        (insert_in-fill front (back ++ [] ∷ []) t name
          ∙ ap (λ (l : List Bytes). some (front ++ name ∷ l)) (fill-longer t [] back)))
