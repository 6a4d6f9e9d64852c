-- ===== src/GaloisEngine/Dot.antt =====
-- The parties' dot products add up to the dot product of what is shared.
use iris_mpc.Prelude.{
  ℕ, zero, suc, ◌+◌, ◌*◌, ◌%◌, ◌^◌, ◌<◌, ◌≡◌, ◌∙◌, refl, ap, List, [], ◌∷◌, some, arith,
}
use iris_mpc.Shares.RingElement.{wrapping_add, wrapping_mul}
use iris_mpc.Galois
use iris_mpc.Galois.{
  GaloisRingElement, basis_a, Monomial, from_coefs, one_element, to_basis_b, to_monomial, ◌+%◌,
  ◌*%◌,
}
use iris_mpc.Galois.Ring.{mul_assoc}
use iris_mpc.Galois.Bases.{dot_coefs, to_basis_b-dot_coefs, dot_coefs-to_basis_b, to_basis_b-add}
use iris_mpc.Galois.Shamir.{encode_3_mat, at_id}
use iris_mpc.Galois.Shamir.Lagrange.{l1, l2, deg_2_lagrange_polys_at_zero_lem}
use iris_mpc.Galois.Shamir.Reconstruct.{products-sum}
use iris_mpc.GaloisEngine.{dot_loop, preprocess_with, preprocess_coefs, encode_groups, remap_index}

-- The dot product before any wrap-around.
abbrev pub raw_dot : List ℕ → List ℕ → ℕ
raw_dot [] ys = 0
raw_dot (x ∷ xs) [] = 0
raw_dot (x ∷ xs) (y ∷ ys) = x * y + raw_dot xs ys

dot_loop-raw :
    (sum : ℕ) (xs ys : List ℕ) → sum < 2 ^ 16 → dot_loop sum xs ys ≡ (sum + raw_dot xs ys) % 2 ^ 16
unfolding ◌+%◌ ◌*%◌ wrapping_add wrapping_mul
dot_loop-raw sum [] ys h = omega arith
dot_loop-raw sum (x ∷ xs) [] h = omega arith
dot_loop-raw sum (x ∷ xs) (y ∷ ys) h =
    dot_loop-raw ((sum + (x * y) % 2 ^ 16) % 2 ^ 16) xs ys (omega arith) ∙ omega arith

pub dot_loop_lem : (xs ys : List ℕ) → dot_loop 0 xs ys ≡ raw_dot xs ys % 2 ^ 16
dot_loop_lem xs ys = dot_loop-raw 0 xs ys (omega arith) ∙ omega arith

-- The groups of four numbers, each times a coefficient and in the basis B.
abbrev pub prepared : Monomial → List ℕ → List ℕ
prepared l (x0 ∷ x1 ∷ x2 ∷ x3 ∷ xs) =
    let element = to_basis_b (Galois.mul (from_coefs x0 x1 x2 x3) l) in
    element.c0 ∷ element.c1 ∷ element.c2 ∷ element.c3 ∷ prepared l xs
prepared l _ = []

-- One group: the parties' dot products add up to that of the elements.
group_dot :
    (x y : GaloisRingElement basis_a) (r q : Monomial)
    → let s = encode_3_mat (to_monomial x) r in
      let t = encode_3_mat (to_monomial y) q in
      (dot_coefs s.p0.y (to_basis_b (Galois.mul t.p0.y l1))
          + dot_coefs s.p1.y (to_basis_b (Galois.mul t.p1.y l2))
          + dot_coefs s.p2.y (to_basis_b (Galois.mul t.p2.y one_element)))
        % 2 ^ 16
      ≡ dot_coefs x y
group_dot x y r q =
    let s = encode_3_mat (to_monomial x) r in
    let t = encode_3_mat (to_monomial y) q in
    let u0 = Galois.mul (Galois.mul s.p0.y t.p0.y) l1 in
    let u1 = Galois.mul (Galois.mul s.p1.y t.p1.y) l2 in
    let u2 = Galois.mul (Galois.mul s.p2.y t.p2.y) one_element in
    rw
      (
        dot_coefs-to_basis_b s.p0.y (Galois.mul t.p0.y l1),
        dot_coefs-to_basis_b s.p1.y (Galois.mul t.p1.y l2),
        dot_coefs-to_basis_b s.p2.y (Galois.mul t.p2.y one_element),
        ← mul_assoc s.p0.y t.p0.y l1,
        ← mul_assoc s.p1.y t.p1.y l2,
        ← mul_assoc s.p2.y t.p2.y one_element,
      )
      (omega (arith, to_basis_b-add u0 u1, to_basis_b-add (Galois.add u0 u1) u2)
        ∙ ap (λ z. (to_basis_b z).c0) (products-sum (to_monomial x) (to_monomial y) r q)
        ∙ to_basis_b-dot_coefs x y)

-- The sum of the products of the values of `n` groups from the index `i` on.
unfoldable pub products : (ℕ → ℕ) → (ℕ → ℕ) → ℕ → ℕ → ℕ
products u v zero i = 0
products u v (suc n) i =
    let f : ℕ → ℕ = λ k. u (remap_index k) * v (remap_index k) in
    f i + f (i + 1) + f (i + 2) + f (i + 3) + products u v n (i + 4)

module _ (u v : ℕ → ℕ) (r q : ℕ → Monomial) where
  pub groups-dot :
      (n i : ℕ)
      → let s = encode_groups u r n i in
        let t = encode_groups v q n i in
        (raw_dot s.p0 (prepared l1 t.p0)
            + raw_dot s.p1 (prepared l2 t.p1)
            + raw_dot s.p2 (prepared one_element t.p2))
          % 2 ^ 16
        ≡ products u v n i % 2 ^ 16
  unfolding encode_groups products
  groups-dot zero i = refl
  groups-dot (suc n) i =
      omega (arith, groups-dot n (i + 4), group_dot (group u i) (group v i) (r i) (q i))
    where
      group : (ℕ → ℕ) → ℕ → GaloisRingElement basis_a
      group w i =
          from_coefs (w (remap_index i)) (w (remap_index (i + 1))) (w (remap_index (i + 2)))
            (w (remap_index (i + 3)))

-- Whole groups of four numbers.
pub data AreGroups : List ℕ → Type 0 where
  empty : AreGroups []
  four : {x0 x1 x2 x3 : ℕ} {xs : List ℕ} → AreGroups xs → AreGroups (x0 ∷ x1 ∷ x2 ∷ x3 ∷ xs)

preprocess_with-prepared :
    (polys : List Monomial) (id : ℕ) (l : Monomial) {xs : List ℕ}
    → at_id polys id ≡ some l
    → AreGroups xs
    → preprocess_with polys id xs ≡ some (prepared l xs)
preprocess_with-prepared polys id l e empty = refl
preprocess_with-prepared polys id l e (four g) =
    rw (e, preprocess_with-prepared polys id l e g) refl

abbrev pub lagrange_polys : List Monomial
lagrange_polys = l1 ∷ l2 ∷ one_element ∷ []

module _ {xs : List ℕ} (g : AreGroups xs) where
  pub preprocess_coefs-party1 : preprocess_coefs 1 xs ≡ some (prepared l1 xs)
  unfolding preprocess_coefs
  preprocess_coefs-party1 =
      rw deg_2_lagrange_polys_at_zero_lem (preprocess_with-prepared lagrange_polys 1 l1 refl g)

  pub preprocess_coefs-party2 : preprocess_coefs 2 xs ≡ some (prepared l2 xs)
  unfolding preprocess_coefs
  preprocess_coefs-party2 =
      rw deg_2_lagrange_polys_at_zero_lem (preprocess_with-prepared lagrange_polys 2 l2 refl g)

  pub preprocess_coefs-party3 : preprocess_coefs 3 xs ≡ some (prepared one_element xs)
  unfolding preprocess_coefs
  preprocess_coefs-party3 =
      rw deg_2_lagrange_polys_at_zero_lem
        (preprocess_with-prepared lagrange_polys 3 one_element refl g)

pub encode_groups-AreGroups :
    (v : ℕ → ℕ) (q : ℕ → Monomial) (n i : ℕ)
    → let s = encode_groups v q n i in AreGroups s.p0 × AreGroups s.p1 × AreGroups s.p2
unfolding encode_groups
encode_groups-AreGroups v q zero i = (empty, empty, empty)
encode_groups-AreGroups v q (suc n) i =
    let (g0, g1, g2) = encode_groups-AreGroups v q n (i + 4) in (four g0, four g1, four g2)
