-- ===== src/Galois/Shamir/Lagrange.antt =====
-- The coefficients of the interpolation, and both ways to make shares.
use iris_mpc.Prelude.{◌+◌, ◌≡◌, ◌≢◌, ◌∙◌, refl, sym, ap, [], ◌∷◌, some, arith}
use iris_mpc.Id.{PartyId, id0, id1, id2, to_usize, Trio}
use iris_mpc.Shares.RingElement.{wrapping_add, wrapping_sub, wrapping_mul, wrapping_neg}
use iris_mpc.Galois
use iris_mpc.Galois.{Monomial, from_coefs, one_element, pow, inverse, ◌+%◌, ◌*%◌}
use iris_mpc.Galois.Ring.{raw_add, raw_mul, reduce, same, mul-reduce}
use iris_mpc.Galois.Shamir.{
  ShamirGaloisRingShare, deg_1_lagrange_polys_at_zero, encode_3, encode_3_mat,
  deg_2_lagrange_polys_at_zero,
}

abbrev pub l1 : Monomial
l1 = from_coefs 1 2 2 2

abbrev pub l2 : Monomial
l2 = from_coefs 65535 65534 65534 65534

pub deg_2_lagrange_polys_at_zero_lem :
    deg_2_lagrange_polys_at_zero ≡ some (l1 ∷ l2 ∷ one_element ∷ [])
unfolding deg_2_lagrange_polys_at_zero inverse pow Galois.mul Galois.sub Galois.neg ◌+%◌ ◌*%◌
    wrapping_add wrapping_mul wrapping_sub wrapping_neg
deg_2_lagrange_polys_at_zero_lem = refl

-- The shares before any wrap-around.
abbrev pub raw_share1 : Monomial → Monomial → Monomial
raw_share1 = raw_add

abbrev pub raw_share2 : Monomial → Monomial → Monomial
raw_share2 x r = from_coefs (x.c0 + r.c3) (x.c1 + r.c0 + r.c3) (x.c2 + r.c1) (x.c3 + r.c2)

abbrev pub raw_share3 : Monomial → Monomial → Monomial
raw_share3 x r = raw_add (raw_share2 x r) r

abbrev pub three : Monomial → Monomial → Monomial → Trio ShamirGaloisRingShare
three x y z = record {
  p0 = record { id = 1; y = x };
  p1 = record { id = 2; y = y };
  p2 = record { id = 3; y = z };
}

three_agree : {x y z x' y' z' : Monomial} → x ≡ x' → y ≡ y' → z ≡ z' → three x y z ≡ three x' y' z'
three_agree e f g = rw (e, f, g) refl

pub encode_3_mat-raw :
    (x r : Monomial)
    → encode_3_mat x r
      ≡ three (reduce (raw_share1 x r)) (reduce (raw_share2 x r)) (reduce (raw_share3 x r))
unfolding encode_3_mat ◌+%◌ wrapping_add
encode_3_mat-raw x r =
    three_agree (same (omega arith) (omega arith) (omega arith) (omega arith))
      (same (omega arith) (omega arith) (omega arith) (omega arith))
      (same (omega arith) (omega arith) (omega arith) (omega arith))

on_line : (x r e : Monomial) → Galois.add x (Galois.mul r e) ≡ reduce (raw_add x (raw_mul r e))
unfolding Galois.add ◌+%◌ wrapping_add
on_line x r e = rw (mul-reduce r e) (same (omega arith) (omega arith) (omega arith) (omega arith))

-- For the same random element, the shares by the polynomial and the shares by the matrix are the
-- same.
pub encode_3-encode_3_mat :
    (input random : Monomial) → encode_3 input random ≡ some (encode_3_mat input random)
unfolding encode_3
encode_3-encode_3_mat x r = ap some (
    three_agree
      (on_line x r (from_coefs 1 0 0 0)
        ∙ same (omega arith) (omega arith) (omega arith) (omega arith))
      (on_line x r (from_coefs 0 1 0 0)
        ∙ same (omega arith) (omega arith) (omega arith) (omega arith))
      (on_line x r (from_coefs 1 1 0 0)
        ∙ same (omega arith) (omega arith) (omega arith) (omega arith))
    ∙ sym (encode_3_mat-raw x r))

-- The coefficients for two of the parties, the first one's.
abbrev pub line_poly : PartyId → PartyId → Monomial
line_poly id0 id1 = from_coefs 1 1 1 1
line_poly id0 id2 = from_coefs 0 0 0 1
line_poly id1 id0 = from_coefs 0 65535 65535 65535
line_poly id1 id2 = from_coefs 1 1 0 0
line_poly id2 id0 = from_coefs 1 0 0 65535
line_poly id2 id1 = from_coefs 0 65535 0 0
line_poly i j = one_element

pub deg_1_lagrange_polys_at_zero_lem :
    (i j : PartyId) → i ≢ j → deg_1_lagrange_polys_at_zero i j ≡ some (line_poly i j)
unfolding deg_1_lagrange_polys_at_zero to_usize inverse pow Galois.mul Galois.sub Galois.neg ◌+%◌
    ◌*%◌ wrapping_add wrapping_mul wrapping_sub wrapping_neg
deg_1_lagrange_polys_at_zero_lem id0 id0 h = absurd (h refl)
deg_1_lagrange_polys_at_zero_lem id0 id1 h = refl
deg_1_lagrange_polys_at_zero_lem id0 id2 h = refl
deg_1_lagrange_polys_at_zero_lem id1 id0 h = refl
deg_1_lagrange_polys_at_zero_lem id1 id1 h = absurd (h refl)
deg_1_lagrange_polys_at_zero_lem id1 id2 h = refl
deg_1_lagrange_polys_at_zero_lem id2 id0 h = refl
deg_1_lagrange_polys_at_zero_lem id2 id1 h = refl
deg_1_lagrange_polys_at_zero_lem id2 id2 h = absurd (h refl)
