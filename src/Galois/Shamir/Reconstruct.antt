-- ===== src/Galois/Shamir/Reconstruct.antt =====
-- The products of the shares of two elements are shares of the product, and two shares determine
-- the element.
use iris_mpc.Prelude.{◌≡◌, ◌≢◌, ◌∙◌, refl, sym, ap, ap₂, Option, some, arith}
use iris_mpc.Id.{PartyId, id0, id1, id2, Trio, at}
use iris_mpc.Execution.Session.{◌>>=◌}
use iris_mpc.Galois
use iris_mpc.Galois.{Monomial, one_element}
use iris_mpc.Galois.Ring.{
  raw_add, raw_mul, reduce, same, add-reduce, reduce-add_both, mul-reduce, mul-reduce_left,
  mul-reduce_right,
}
use iris_mpc.Galois.Shamir
use iris_mpc.Galois.Shamir.{
  ShamirGaloisRingShare, encode_3_mat, deg_1_lagrange_polys_at_zero, reconstruct_deg_2_shares,
}
use iris_mpc.Galois.Shamir.Lagrange.{
  l1, l2, line_poly, deg_1_lagrange_polys_at_zero_lem, deg_2_lagrange_polys_at_zero_lem, raw_share1,
  raw_share2, raw_share3, encode_3_mat-raw, three,
}

add_reduced : (x y : Monomial) → Galois.add (reduce x) (reduce y) ≡ reduce (raw_add x y)
add_reduced x y = add-reduce (reduce x) (reduce y) ∙ reduce-add_both x y

product3 :
    (x y l : Monomial)
    → Galois.mul (Galois.mul (reduce x) (reduce y)) l ≡ reduce (raw_mul (raw_mul x y) l)
product3 x y l =
    ap (λ z. Galois.mul z l) (mul-reduce_left x (reduce y) ∙ mul-reduce_right x y ∙ mul-reduce x y)
    ∙ mul-reduce_left (raw_mul x y) l
    ∙ mul-reduce (raw_mul x y) l

interpolated :
    (x y r q : Monomial)
    → reduce (
        raw_add
          (raw_add
            (raw_mul (raw_mul (raw_share1 x r) (raw_share1 y q)) l1)
            (raw_mul (raw_mul (raw_share2 x r) (raw_share2 y q)) l2))
          (raw_mul (raw_mul (raw_share3 x r) (raw_share3 y q)) one_element))
      ≡ reduce (raw_mul x y)
interpolated x y r q = same (omega arith) (omega arith) (omega arith) (omega arith)

-- The products of the shares of `x` and of `y`, each times its coefficient, add up to the product.
pub products-sum :
    (x y r q : Monomial)
    → let s = encode_3_mat x r in
      let t = encode_3_mat y q in
      Galois.add
        (Galois.add
          (Galois.mul (Galois.mul s.p0.y t.p0.y) l1)
          (Galois.mul (Galois.mul s.p1.y t.p1.y) l2))
        (Galois.mul (Galois.mul s.p2.y t.p2.y) one_element)
      ≡ Galois.mul x y
products-sum x y r q =
    let a = raw_mul (raw_mul (raw_share1 x r) (raw_share1 y q)) l1 in
    let b = raw_mul (raw_mul (raw_share2 x r) (raw_share2 y q)) l2 in
    let c = raw_mul (raw_mul (raw_share3 x r) (raw_share3 y q)) one_element in
    rw
      (
        encode_3_mat-raw x r,
        encode_3_mat-raw y q,
        product3 (raw_share1 x r) (raw_share1 y q) l1,
        product3 (raw_share2 x r) (raw_share2 y q) l2,
        product3 (raw_share3 x r) (raw_share3 y q) one_element,
        add_reduced a b,
        add_reduced (raw_add a b) c,
        mul-reduce x y,
      )
      (interpolated x y r q)

-- Every party multiplies its shares, and the results are put together.
abbrev pub reconstruct_products :
    Trio ShamirGaloisRingShare → Trio ShamirGaloisRingShare → Option Monomial
reconstruct_products s t = do
  u0 ← Shamir.mul s.p0 t.p0
  u1 ← Shamir.mul s.p1 t.p1
  u2 ← Shamir.mul s.p2 t.p2
  reconstruct_deg_2_shares (record { p0 = u0; p1 = u1; p2 = u2 })

reconstruct_products-three :
    (a0 a1 a2 b0 b1 b2 : Monomial)
    → reconstruct_products (three a0 a1 a2) (three b0 b1 b2)
      ≡ some (
          Galois.add
            (Galois.add (Galois.mul (Galois.mul a0 b0) l1) (Galois.mul (Galois.mul a1 b1) l2))
            (Galois.mul (Galois.mul a2 b2) one_element))
unfolding reconstruct_deg_2_shares Shamir.mul
reconstruct_products-three a0 a1 a2 b0 b1 b2 = rw deg_2_lagrange_polys_at_zero_lem refl

by_ids : (x r : Monomial) → let s = encode_3_mat x r in s ≡ three s.p0.y s.p1.y s.p2.y
unfolding encode_3_mat
by_ids x r = refl

-- The products of the three parties' shares of two elements, with any random elements,
-- reconstruct to the product of the elements, and no assertion fails.
pub reconstruct_products-mul :
    (x y r q : Monomial)
    → reconstruct_products (encode_3_mat x r) (encode_3_mat y q) ≡ some (Galois.mul x y)
reconstruct_products-mul x y r q =
    let s = encode_3_mat x r in
    let t = encode_3_mat y q in
    ap₂ reconstruct_products (by_ids x r) (by_ids y q)
    ∙ reconstruct_products-three s.p0.y s.p1.y s.p2.y t.p0.y t.p1.y t.p2.y
    ∙ ap some (products-sum x y r q)

on_lines :
    (a b l m x : Monomial)
    → reduce (raw_add (raw_mul a l) (raw_mul b m)) ≡ reduce x
    → Galois.add (Galois.mul (reduce a) l) (Galois.mul (reduce b) m) ≡ reduce x
on_lines a b l m x e =
    rw
      (
        mul-reduce_left a l,
        mul-reduce_left b m,
        mul-reduce a l,
        mul-reduce b m,
        add_reduced (raw_mul a l) (raw_mul b m),
      )
      e

two_shares :
    (i j : PartyId) (x r : Monomial)
    → i ≢ j
    → let s = three (reduce (raw_share1 x r)) (reduce (raw_share2 x r)) (reduce (raw_share3 x r)) in
      Galois.add (Galois.mul (at s i).y (line_poly i j)) (Galois.mul (at s j).y (line_poly j i))
      ≡ reduce x
two_shares id0 id0 x r h = absurd (h refl)
two_shares id0 id1 x r h =
    on_lines (raw_share1 x r) (raw_share2 x r) _ _ x
      (same (omega arith) (omega arith) (omega arith) (omega arith))
two_shares id0 id2 x r h =
    on_lines (raw_share1 x r) (raw_share3 x r) _ _ x
      (same (omega arith) (omega arith) (omega arith) (omega arith))
two_shares id1 id0 x r h =
    on_lines (raw_share2 x r) (raw_share1 x r) _ _ x
      (same (omega arith) (omega arith) (omega arith) (omega arith))
two_shares id1 id1 x r h = absurd (h refl)
two_shares id1 id2 x r h =
    on_lines (raw_share2 x r) (raw_share3 x r) _ _ x
      (same (omega arith) (omega arith) (omega arith) (omega arith))
two_shares id2 id0 x r h =
    on_lines (raw_share3 x r) (raw_share1 x r) _ _ x
      (same (omega arith) (omega arith) (omega arith) (omega arith))
two_shares id2 id1 x r h =
    on_lines (raw_share3 x r) (raw_share2 x r) _ _ x
      (same (omega arith) (omega arith) (omega arith) (omega arith))
two_shares id2 id2 x r h = absurd (h refl)

-- For two different parties there are coefficients of degree 1, and the two parties' shares of an
-- element, made with any random element and times these coefficients, add up to the element, each of
-- its four numbers modulo 65,536.
pub deg_1-reconstruct :
    (i j : PartyId) (x r : Monomial)
    → i ≢ j
    → (l : Monomial) × (m : Monomial) × (deg_1_lagrange_polys_at_zero i j ≡ some l)
      × (deg_1_lagrange_polys_at_zero j i ≡ some m)
      × (Galois.add
            (Galois.mul (at (encode_3_mat x r) i).y l)
            (Galois.mul (at (encode_3_mat x r) j).y m)
          ≡ reduce x)
deg_1-reconstruct i j x r h = (
  line_poly i j,
  line_poly j i,
  deg_1_lagrange_polys_at_zero_lem i j h,
  deg_1_lagrange_polys_at_zero_lem j i (λ e. h (sym e)),
  rw (encode_3_mat-raw x r) (two_shares i j x r h),
)
