-- ===== src/GaloisEngine.antt =====
-- iris-mpc-common/src/galois_engine.rs: the parties' shares of iris codes and of masks, and their dot
-- products. The random numbers are arguments.
pub mod Dot
pub mod Full
pub mod Positions
pub mod Counts
pub mod Order
pub mod Shares
pub mod Rotations
use iris_mpc.Prelude.{
  ℕ, zero, suc, ◌+◌, ◌-◌, ◌*◌, ◌/◌, ◌%◌, List, [], ◌∷◌, ◌++◌, Option, none, some, length, take,
  drop, bit_and,
}
use iris_mpc.Prelude.Bits.{to_nat}
use iris_mpc.Id.{Trio}
use iris_mpc.Execution.Session.{◌>>=◌}
use iris_mpc.Shares.RingElement.{wrapping_sub}
use iris_mpc.IrisCode.{IrisCodeArray, IrisCode, get_bit, iris_code_size}
use iris_mpc.Galois.{
  Monomial, from_coefs, basis_a, GaloisRingElement, mul, to_basis_b, to_monomial, ◌+%◌, ◌*%◌,
}
use iris_mpc.Galois.Shamir.{deg_2_lagrange_polys_at_zero, at_id, encode_3_mat}

abbrev pub mask_code_length : ℕ
mask_code_length = 6400

abbrev code_cols : ℕ
code_cols = 200

-- `none` is the panic for an identifier without a coefficient, and for a length that 4 does not
-- divide.
abbrev preprocess_with : List Monomial → ℕ → List ℕ → Option (List ℕ)
preprocess_with polys id [] = some []
preprocess_with polys id (x0 ∷ x1 ∷ x2 ∷ x3 ∷ xs) = do
  l ← at_id polys id
  rest ← preprocess_with polys id xs
  let element = to_basis_b (mul (from_coefs x0 x1 x2 x3) l)
  some (element.c0 ∷ element.c1 ∷ element.c2 ∷ element.c3 ∷ rest)
preprocess_with polys id _ = none

unfoldable pub preprocess_coefs : ℕ → List ℕ → Option (List ℕ)
preprocess_coefs id coefs = do
  lagrange_coeffs ← deg_2_lagrange_polys_at_zero
  preprocess_with lagrange_coeffs id coefs

abbrev rotate_right : ℕ → List ℕ → List ℕ
rotate_right by xs = drop (length xs - by) xs ++ take (length xs - by) xs

abbrev rotate_left : ℕ → List ℕ → List ℕ
rotate_left by xs = drop by xs ++ take by xs

-- The first `n` chunks of `size` numbers.
abbrev on_chunks : (List ℕ → List ℕ) → ℕ → ℕ → List ℕ → List ℕ
on_chunks f size zero xs = xs
on_chunks f size (suc n) xs = f (take size xs) ++ on_chunks f size n (drop size xs)

-- The distance is at most 200: the source panics beyond.
unfoldable pub rotate_coefs_right : List ℕ → ℕ → List ℕ
rotate_coefs_right coefs by =
    on_chunks (rotate_right (by * 4)) (code_cols * 4) (length coefs / (code_cols * 4)) coefs

unfoldable pub rotate_coefs_left : List ℕ → ℕ → List ℕ
rotate_coefs_left coefs by =
    on_chunks (rotate_left (by * 4)) (code_cols * 4) (length coefs / (code_cols * 4)) coefs

-- The share of a code; the share of a mask has the first half of the coefficients only.
pub record GaloisRingIrisCodeShare : Type 0 where
  pub id : ℕ
  pub coefs : List ℕ

pub record GaloisRingTrimmedMaskCodeShare : Type 0 where
  pub id : ℕ
  pub coefs : List ℕ

unfoldable pub trimmed : GaloisRingIrisCodeShare → GaloisRingTrimmedMaskCodeShare
trimmed iris_share = record { id = iris_share.id; coefs = take mask_code_length iris_share.coefs }

-- The loop over both arrays, which have one length.
abbrev pub dot_loop : ℕ → List ℕ → List ℕ → ℕ
dot_loop sum [] ys = sum
dot_loop sum (x ∷ xs) [] = sum
dot_loop sum (x ∷ xs) (y ∷ ys) = dot_loop (sum +% x *% y) xs ys

unfoldable pub trick_dot : GaloisRingIrisCodeShare → GaloisRingIrisCodeShare → ℕ
trick_dot self other = dot_loop 0 self.coefs other.coefs

unfoldable pub mask_trick_dot : GaloisRingTrimmedMaskCodeShare → GaloisRingTrimmedMaskCodeShare → ℕ
mask_trick_dot self other = dot_loop 0 self.coefs other.coefs

unfoldable pub preprocess_iris_code_query_share :
    GaloisRingIrisCodeShare → Option GaloisRingIrisCodeShare
preprocess_iris_code_query_share self = do
  coefs ← preprocess_coefs self.id self.coefs
  some (record self { coefs = coefs })

unfoldable pub preprocess_mask_code_query_share :
    GaloisRingTrimmedMaskCodeShare → Option GaloisRingTrimmedMaskCodeShare
preprocess_mask_code_query_share self = do
  coefs ← preprocess_coefs self.id self.coefs
  some (record self { coefs = coefs })

abbrev full_loop : List Monomial → ℕ → ℕ → List ℕ → List ℕ → Option ℕ
full_loop polys id sum (x0 ∷ x1 ∷ x2 ∷ x3 ∷ xs) (y0 ∷ y1 ∷ y2 ∷ y3 ∷ ys) = do
  l ← at_id polys id
  let z = to_basis_b (mul (mul (from_coefs x0 x1 x2 x3) (from_coefs y0 y1 y2 y3)) l)
  full_loop polys id (sum +% z.c0) xs ys
full_loop polys id sum xs ys = some sum

unfoldable pub full_dot : GaloisRingIrisCodeShare → GaloisRingIrisCodeShare → Option ℕ
full_dot self other = do
  lagrange_coeffs ← deg_2_lagrange_polys_at_zero
  full_loop lagrange_coeffs self.id 0 self.coefs other.coefs

-- The rotations to the right, one more each time.
abbrev rotations : ℕ → List ℕ → List (List ℕ)
rotations zero reference = []
rotations (suc n) reference =
    let reference = rotate_coefs_right reference 1 in reference ∷ rotations n reference

unfoldable pub all_rotations : List ℕ → List (List ℕ)
unfolding rotate_coefs_left
all_rotations coefs = rotations 31 (rotate_coefs_left coefs 16)

unfoldable pub remap_index : ℕ → ℕ
remap_index i =
    let b = i / 6400 in
    let w = i % 6400 / 3200 in
    let r1 = i % 3200 / 800 in
    let c = i % 800 / 4 in let r2 = i % 4 in let r = r2 * 4 + r1 in 800 * r + c * 4 + w * 2 + b

-- The shares of `n` groups of four numbers from the index `i` on: `value` is what is shared, and
-- `random` the random element for each group.
unfoldable pub encode_groups : (ℕ → ℕ) → (ℕ → Monomial) → ℕ → ℕ → Trio (List ℕ)
encode_groups value random zero i = record { p0 = []; p1 = []; p2 = [] }
encode_groups value random (suc n) i =
    let element : GaloisRingElement basis_a =
      from_coefs (value (remap_index i)) (value (remap_index (i + 1))) (value (remap_index (i + 2)))
        (value (remap_index (i + 3))) in
    let share = encode_3_mat (to_monomial element) (random i) in
    let rest = encode_groups value random n (i + 4) in
    let y0 = share.p0.y in
    let y1 = share.p1.y in
    let y2 = share.p2.y in
    record {
      p0 = y0.c0 ∷ y0.c1 ∷ y0.c2 ∷ y0.c3 ∷ rest.p0;
      p1 = y1.c0 ∷ y1.c1 ∷ y1.c2 ∷ y1.c3 ∷ rest.p1;
      p2 = y2.c0 ∷ y2.c1 ∷ y2.c2 ∷ y2.c3 ∷ rest.p2;
    }

abbrev pub encode_values : (ℕ → ℕ) → (ℕ → Monomial) → Trio GaloisRingIrisCodeShare
encode_values value random =
    let coefs = encode_groups value random (iris_code_size / 4) 0 in
    record {
      p0 = record { id = 1; coefs = coefs.p0 };
      p1 = record { id = 2; coefs = coefs.p1 };
      p2 = record { id = 3; coefs = coefs.p2 };
    }

-- A masked bit: 1 for a zero, -1 for a one, and 0 where the mask is not set.
unfoldable pub masked_bit : IrisCodeArray → IrisCodeArray → ℕ → ℕ
masked_bit iris_code mask_code i =
    let mask = to_nat (get_bit mask_code i) in
    let code = to_nat (get_bit iris_code i) in wrapping_sub 16 mask (2 * bit_and code mask)

unfoldable pub encode_iris_code :
    IrisCodeArray → IrisCodeArray → (ℕ → Monomial) → Trio GaloisRingIrisCodeShare
encode_iris_code iris_code mask_code random = encode_values (masked_bit iris_code mask_code) random

unfoldable pub encode_mask_code : IrisCodeArray → (ℕ → Monomial) → Trio GaloisRingIrisCodeShare
encode_mask_code mask_code random = encode_values (λ i. to_nat (get_bit mask_code i)) random

unfoldable pub reencode_extended_iris_code : (ℕ → ℕ) → (ℕ → Monomial) → Trio GaloisRingIrisCodeShare
reencode_extended_iris_code iris_code random = encode_values iris_code random

-- `GaloisRingSharedIris` of iris-mpc-cpu/src/database_generators.rs has the same fields.
pub record FullGaloisRingIrisCodeShare : Type 0 where
  pub code : GaloisRingIrisCodeShare
  pub mask : GaloisRingTrimmedMaskCodeShare

-- The random elements of the code's shares, and those of the mask's.
unfoldable pub full_encode_iris_code :
    IrisCode → (ℕ → Monomial) → (ℕ → Monomial) → Trio FullGaloisRingIrisCodeShare
full_encode_iris_code iris code_random mask_random =
    let code = encode_iris_code iris.code iris.mask code_random in
    let mask = encode_mask_code iris.mask mask_random in
    record {
      p0 = record { code = code.p0; mask = trimmed mask.p0 };
      p1 = record { code = code.p1; mask = trimmed mask.p1 };
      p2 = record { code = code.p2; mask = trimmed mask.p2 };
    }
