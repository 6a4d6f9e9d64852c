-- ===== src/Tests/Galois.antt =====
-- Elements of the ring, shares of them, and dot products at concrete values.
use iris_mpc.Prelude.{
  ℕ, ◌-◌, ◌%◌, ◌<◌, ◌≡◌, refl, List, ◌∷◌, [], false, true, some, none, tabulate, length-tabulate,
  arith,
}
use iris_mpc.Id.{id0, id2, at, to_usize}
use iris_mpc.Execution.Session.{◌>>=◌}
use iris_mpc.Galois
use iris_mpc.Galois.{
  GaloisRingElement, basis_a, Monomial, from_coefs, zero_element, one_element, pow, inverse,
  all_even, to_basis_a, to_monomial,
}
use iris_mpc.Galois.Bases.{to_monomial-to_basis_a}
use iris_mpc.Galois.Power.{power, pow-power}
use iris_mpc.Galois.Inverse.{inverse-mul}
use iris_mpc.Galois.Ring.{reduce, add-mul-laws}
use iris_mpc.Galois.Shamir.{encode_3, encode_3_mat, deg_1_lagrange_polys_at_zero}
use iris_mpc.Galois.Shamir.Lagrange.{encode_3-encode_3_mat}
use iris_mpc.Galois.Shamir.Reconstruct.{
  reconstruct_products, reconstruct_products-mul, deg_1-reconstruct,
}
use iris_mpc.GaloisEngine.{
  GaloisRingIrisCodeShare, remap_index, full_dot, trick_dot, preprocess_iris_code_query_share,
  all_rotations,
}
use iris_mpc.GaloisEngine.Full.{no_groups, both, full_dot-trick_dot}
use iris_mpc.GaloisEngine.Rotations.{AreRows, no_rows, row, joined, turned, all_rotations-turned}
use iris_mpc.GaloisEngine.Positions.{original_index, remap_index-original_index}

abbrev small : Monomial
small = from_coefs 1 2 3 4

abbrev large : Monomial
large = from_coefs 65535 40000 7 9

abbrev random : Monomial
random = from_coefs 12345 54321 333 65000

to_monomial-to_basis_a_example :
    (to_basis_a (to_monomial (from_coefs 65535 40000 7 9)) ≡ from_coefs 65535 40000 7 9)
    × (to_monomial (to_basis_a large) ≡ large)
to_monomial-to_basis_a_example =
    to_monomial-to_basis_a (from_coefs 65535 40000 7 9) large
      (record { lt0 = omega arith; lt1 = omega arith; lt2 = omega arith; lt3 = omega arith })
      (record { lt0 = omega arith; lt1 = omega arith; lt2 = omega arith; lt3 = omega arith })

pow-power_example : pow large 13 ≡ power large 13
pow-power_example = pow-power large 13

inverse-mul_example :
    (all_even large ≡ false
      → (v : Monomial) × (inverse large ≡ some v) × (Galois.mul v large ≡ one_element))
    × (all_even large ≡ true → inverse large ≡ none)
inverse-mul_example = inverse-mul large

encode_3-encode_3_mat_example : encode_3 small random ≡ some (encode_3_mat small random)
encode_3-encode_3_mat_example = encode_3-encode_3_mat small random

reconstruct_products-mul_example :
    reconstruct_products (encode_3_mat small random) (encode_3_mat large small)
    ≡ some (Galois.mul small large)
reconstruct_products-mul_example = reconstruct_products-mul small large random small

remap_index-original_index_example :
    (remap_index 6401 < 12800)
    × (original_index 6401 < 12800)
    × (original_index (remap_index 6401) ≡ 6401)
    × (remap_index (original_index 6401) ≡ 6401)
remap_index-original_index_example = remap_index-original_index 6401 (omega arith)

deg_1-reconstruct_example :
    (l : Monomial) × (m : Monomial) × (deg_1_lagrange_polys_at_zero id0 id2 ≡ some l)
    × (deg_1_lagrange_polys_at_zero id2 id0 ≡ some m)
    × (Galois.add
          (Galois.mul (at (encode_3_mat large random) id0).y l)
          (Galois.mul (at (encode_3_mat large random) id2).y m)
        ≡ reduce large)
deg_1-reconstruct_example = deg_1-reconstruct id0 id2 large random (ground arith)

abbrev left : GaloisRingIrisCodeShare
left = record { id = 3; coefs = 1 ∷ 2 ∷ 3 ∷ 65535 ∷ 5 ∷ 6 ∷ 7 ∷ 8 ∷ [] }

abbrev right : GaloisRingIrisCodeShare
right = record { id = 3; coefs = 9 ∷ 8 ∷ 7 ∷ 6 ∷ 5 ∷ 4 ∷ 3 ∷ 2 ∷ [] }

full_dot-trick_dot_example :
    (z : ℕ) × (full_dot left right ≡ some z)
    × ((do prepared ← preprocess_iris_code_query_share right; some (trick_dot left prepared))
        ≡ some z)
unfolding to_usize
full_dot-trick_dot_example =
    full_dot-trick_dot id2 (1 ∷ 2 ∷ 3 ∷ 65535 ∷ 5 ∷ 6 ∷ 7 ∷ 8 ∷ [])
      (9 ∷ 8 ∷ 7 ∷ 6 ∷ 5 ∷ 4 ∷ 3 ∷ 2 ∷ []) (both (both no_groups))

add-mul-laws_example :
    (Galois.add small large ≡ Galois.add large small)
    × (Galois.add (Galois.add small large) random ≡ Galois.add small (Galois.add large random))
    × (Galois.mul small large ≡ Galois.mul large small)
    × (Galois.mul (Galois.mul small large) random ≡ Galois.mul small (Galois.mul large random))
    × (Galois.mul small (Galois.add large random)
        ≡ Galois.add (Galois.mul small large) (Galois.mul small random))
    × (Galois.add small zero_element ≡ small)
    × (Galois.mul small one_element ≡ small)
add-mul-laws_example = add-mul-laws small large random refl

abbrev rows : List (List ℕ)
rows = tabulate 800 (λ i. i) ∷ tabulate 800 (λ i. 65535 - i) ∷ []

rows-AreRows : AreRows rows
rows-AreRows =
    row (length-tabulate 800 (λ i. i)) (row (length-tabulate 800 (λ i. 65535 - i)) no_rows)

all_rotations-turned_example :
    (all_rotations (joined rows) ≡ tabulate 31 (λ t. turned ((215 - t) % 200) rows))
    × (turned ((215 - 15) % 200) rows ≡ joined rows)
all_rotations-turned_example = all_rotations-turned rows rows-AreRows
