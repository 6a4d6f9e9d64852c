-- ===== src/Protocol/Adder/Circuit.antt =====
-- The circuits of the adders, over any kind of values with exclusive or and AND.
use iris_mpc.Prelude.{◌≡◌, refl, List, [], ◌∷◌, map}
use iris_mpc.Id.{Trio, map_trio}

module _ {A : Type 0} (xor and : A → A → A) where
  -- The full adder: the sum and the carry of three values.
  abbrev pub sum_bit : Trio A → A
  sum_bit t = xor t.p0 (xor t.p1 t.p2)

  abbrev pub carry_bit : Trio A → A
  carry_bit t = xor (and (xor t.p0 t.p2) (xor t.p1 t.p2)) t.p2

  -- The carry out of two rows of values and a carry in.
  unfoldable pub ripple : A → List A → List A → A
  ripple c [] bs = c
  ripple c (a ∷ as') [] = c
  ripple c (a ∷ as') (b ∷ bs) = ripple (xor c (and (xor a c) (xor b c))) as' bs

module _ {A B : Type 0} (xor and : A → A → A) (xor' and' : B → B → B) (f : A → B)
    (on_xor : (x y : A) → f (xor x y) ≡ xor' (f x) (f y))
    (on_and : (x y : A) → f (and x y) ≡ and' (f x) (f y)) where
  pub sum_bit_hom : (t : Trio A) → f (sum_bit xor and t) ≡ sum_bit xor' and' (map_trio f t)
  sum_bit_hom t = rw (on_xor t.p0 (xor t.p1 t.p2), on_xor t.p1 t.p2)

  pub carry_bit_hom : (t : Trio A) → f (carry_bit xor and t) ≡ carry_bit xor' and' (map_trio f t)
  carry_bit_hom t = simp (on_xor, on_and)

  pub ripple_hom :
      (c : A) (as' bs : List A)
      → f (ripple xor and c as' bs) ≡ ripple xor' and' (f c) (map f as') (map f bs)
  unfolding ripple
  ripple_hom c [] bs = refl
  ripple_hom c (a ∷ as') [] = refl
  ripple_hom c (a ∷ as') (b ∷ bs) = rw (
    ripple_hom (xor c (and (xor a c) (xor b c))) as' bs,
    on_xor c (and (xor a c) (xor b c)),
    on_and (xor a c) (xor b c),
    on_xor a c,
    on_xor b c,
  )
