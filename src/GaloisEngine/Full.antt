-- ===== src/GaloisEngine/Full.antt =====
-- The dot product in the ring and the dot product of prepared numbers are the same.
use iris_mpc.Prelude.{ℕ, ◌+◌, ◌≡◌, refl, List, [], ◌∷◌, some, arith}
use iris_mpc.Id.{PartyId, id0, id1, id2, to_usize}
use iris_mpc.Execution.Session.{◌>>=◌}
use iris_mpc.Shares.RingElement.{wrapping_add, wrapping_mul}
use iris_mpc.Galois
use iris_mpc.Galois.{Monomial, from_coefs, one_element, to_basis_b, ◌+%◌, ◌*%◌}
use iris_mpc.Galois.Ring.{mul_assoc}
use iris_mpc.Galois.Bases.{dot_coefs-to_basis_b}
use iris_mpc.Galois.Shamir.{at_id}
use iris_mpc.Galois.Shamir.Lagrange.{l1, l2, deg_2_lagrange_polys_at_zero_lem}
use iris_mpc.GaloisEngine.{
  GaloisRingIrisCodeShare, dot_loop, full_loop, full_dot, trick_dot,
  preprocess_iris_code_query_share,
}
use iris_mpc.GaloisEngine.Dot.{
  AreGroups, empty, four, prepared, lagrange_polys, preprocess_coefs-party1,
  preprocess_coefs-party2, preprocess_coefs-party3,
}

-- Groups of four numbers, as many in both vectors.
pub data AreSameGroups : List ℕ → List ℕ → Type 0 where
  no_groups : AreSameGroups [] []
  both :
      {x0 x1 x2 x3 y0 y1 y2 y3 : ℕ} {xs ys : List ℕ}
      → AreSameGroups xs ys
      → AreSameGroups (x0 ∷ x1 ∷ x2 ∷ x3 ∷ xs) (y0 ∷ y1 ∷ y2 ∷ y3 ∷ ys)

second-AreGroups : {xs ys : List ℕ} → AreSameGroups xs ys → AreGroups ys
second-AreGroups no_groups = empty
second-AreGroups (both g) = four (second-AreGroups g)

-- One group in both loops.
one_group :
    (sum : ℕ) (x y l : Monomial)
    → let z = to_basis_b (Galois.mul (Galois.mul x y) l) in
      let e = to_basis_b (Galois.mul y l) in
      sum +% z.c0 ≡ sum +% x.c0 *% e.c0 +% x.c1 *% e.c1 +% x.c2 *% e.c2 +% x.c3 *% e.c3
unfolding ◌+%◌ ◌*%◌ wrapping_add wrapping_mul
one_group sum x y l = rw (mul_assoc x y l, ← dot_coefs-to_basis_b x (Galois.mul y l)) (omega arith)

loops :
    (polys : List Monomial) (id : ℕ) (l : Monomial) {xs ys : List ℕ}
    → at_id polys id ≡ some l
    → AreSameGroups xs ys
    → (sum : ℕ) → full_loop polys id sum xs ys ≡ some (dot_loop sum xs (prepared l ys))
loops polys id l e no_groups sum = refl
loops polys id l e (both {x0} {x1} {x2} {x3} {y0} {y1} {y2} {y3} g) sum =
    rw (e, one_group sum (from_coefs x0 x1 x2 x3) (from_coefs y0 y1 y2 y3) l)
      (loops polys id l e g _)

-- For shares with the identifier of a party, counted from 1, and as many groups of four numbers in
-- both, the full dot product is the dot product with the prepared second share, and neither is an
-- error.
pub full_dot-trick_dot :
    (i : PartyId) (xs ys : List ℕ)
    → AreSameGroups xs ys
    → let s : GaloisRingIrisCodeShare = record { id = to_usize i + 1; coefs = xs } in
      let t : GaloisRingIrisCodeShare = record { id = to_usize i + 1; coefs = ys } in
      (z : ℕ) × (full_dot s t ≡ some z)
      × ((do t' ← preprocess_iris_code_query_share t; some (trick_dot s t')) ≡ some z)
unfolding full_dot trick_dot preprocess_iris_code_query_share to_usize
full_dot-trick_dot id0 xs ys g = (
  dot_loop 0 xs (prepared l1 ys),
  rw deg_2_lagrange_polys_at_zero_lem (loops lagrange_polys 1 l1 refl g 0),
  rw (preprocess_coefs-party1 (second-AreGroups g)) refl,
)
full_dot-trick_dot id1 xs ys g = (
  dot_loop 0 xs (prepared l2 ys),
  rw deg_2_lagrange_polys_at_zero_lem (loops lagrange_polys 2 l2 refl g 0),
  rw (preprocess_coefs-party2 (second-AreGroups g)) refl,
)
full_dot-trick_dot id2 xs ys g = (
  dot_loop 0 xs (prepared one_element ys),
  rw deg_2_lagrange_polys_at_zero_lem (loops lagrange_polys 3 one_element refl g 0),
  rw (preprocess_coefs-party3 (second-AreGroups g)) refl,
)
