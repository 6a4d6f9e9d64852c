-- ===== src/Galois/Shamir.antt =====
-- iris-mpc-common/src/galois.rs: Shamir shares in the Galois ring. The random elements are arguments.
pub mod Lagrange
pub mod Reconstruct
use iris_mpc.Prelude.{
  ℕ, zero, suc, ◌+◌, ◌==◌, ◌&&◌, ltb, if◌then◌else◌, List, [], ◌∷◌, Option, none, some, get_elem?,
}
use iris_mpc.Id.{PartyId, to_usize, Trio}
use iris_mpc.Execution.Session.{◌>>=◌}
use iris_mpc.Galois
use iris_mpc.Galois.{Monomial, from_coefs, one_element, exceptional_sequence, inverse, ◌+%◌}

pub record ShamirGaloisRingShare : Type 0 where
  pub id : ℕ
  pub y : Monomial

-- The identifiers must be equal: `none` is the failed assertion.
abbrev on_equal_ids :
    (Monomial → Monomial → Monomial)
    → ShamirGaloisRingShare
    → ShamirGaloisRingShare
    → Option ShamirGaloisRingShare
on_equal_ids op s t = if s.id == t.id then some (record { id = s.id; y = op s.y t.y }) else none

unfoldable pub add : ShamirGaloisRingShare → ShamirGaloisRingShare → Option ShamirGaloisRingShare
add = on_equal_ids Galois.add

unfoldable pub mul : ShamirGaloisRingShare → ShamirGaloisRingShare → Option ShamirGaloisRingShare
mul = on_equal_ids Galois.mul

unfoldable pub sub : ShamirGaloisRingShare → ShamirGaloisRingShare → Option ShamirGaloisRingShare
sub = on_equal_ids Galois.sub

-- The polynomial with the coefficients `input` and `random`, at an element of the sequence.
abbrev encode_at : Monomial → Monomial → ℕ → Option ShamirGaloisRingShare
encode_at input random i = do
  element ← get_elem? exceptional_sequence i
  some (record { id = i; y = Galois.add input (Galois.mul random element) })

unfoldable pub encode_3 : Monomial → Monomial → Option (Trio ShamirGaloisRingShare)
encode_3 input random = do
  s1 ← encode_at input random 1
  s2 ← encode_at input random 2
  s3 ← encode_at input random 3
  some (record { p0 = s1; p1 = s2; p2 = s3 })

-- The same, written out for the four numbers of the input and of the random element.
unfoldable pub encode_3_mat : Monomial → Monomial → Trio ShamirGaloisRingShare
encode_3_mat input r =
    let share2 : Monomial =
      from_coefs (input.c0 +% r.c3) (input.c1 +% r.c0 +% r.c3) (input.c2 +% r.c1)
        (input.c3 +% r.c2) in
    record {
      p0 = record {
        id = 1;
        y = from_coefs (input.c0 +% r.c0) (input.c1 +% r.c1) (input.c2 +% r.c2) (input.c3 +% r.c3);
      };
      p1 = record { id = 2; y = share2 };
      p2 = record {
        id = 3;
        y =
            from_coefs (share2.c0 +% r.c0) (share2.c1 +% r.c1) (share2.c2 +% r.c2)
              (share2.c3 +% r.c3);
      };
    }

unfoldable pub deg_1_lagrange_polys_at_zero : PartyId → PartyId → Option Monomial
deg_1_lagrange_polys_at_zero my_id other_id = do
  i ← get_elem? exceptional_sequence (to_usize my_id + 1)
  j ← get_elem? exceptional_sequence (to_usize other_id + 1)
  d ← inverse (Galois.sub i j)
  some (Galois.mul (Galois.mul one_element (Galois.neg j)) d)

-- `none` is a failed assertion or the panic of `inverse`.
unfoldable pub deg_1_lagrange_poly_at_v : ℕ → ℕ → ℕ → Option Monomial
deg_1_lagrange_poly_at_v my_id other_id v =
    if ltb my_id 15 && ltb other_id 15 && ltb v 15
    then (do
      i ← get_elem? exceptional_sequence (my_id + 1)
      j ← get_elem? exceptional_sequence (other_id + 1)
      e ← get_elem? exceptional_sequence (v + 1)
      d ← inverse (Galois.sub i j)
      some (Galois.mul (Galois.sub e j) d))
    else none

abbrev lagrange_factor : ℕ → ℕ → Monomial → Option Monomial
lagrange_factor i j res = do
  ei ← get_elem? exceptional_sequence i
  ej ← get_elem? exceptional_sequence j
  d ← inverse (Galois.sub ei ej)
  some (Galois.mul (Galois.mul res (Galois.neg ej)) d)

-- The inner loop, over the elements other than that of `i`.
abbrev lagrange_loop : ℕ → List ℕ → Monomial → Option Monomial
lagrange_loop i [] res = some res
lagrange_loop i (j ∷ js) res = do
  res' ← if j == i then some res else lagrange_factor i j res
  lagrange_loop i js res'

unfoldable pub deg_2_lagrange_polys_at_zero : Option (List Monomial)
deg_2_lagrange_polys_at_zero = do
  l1 ← lagrange_loop 1 (1 ∷ 2 ∷ 3 ∷ []) one_element
  l2 ← lagrange_loop 2 (1 ∷ 2 ∷ 3 ∷ []) one_element
  l3 ← lagrange_loop 3 (1 ∷ 2 ∷ 3 ∷ []) one_element
  some (l1 ∷ l2 ∷ l3 ∷ [])

-- `list[id - 1]`, which panics for the identifier 0 and beyond the end.
abbrev pub at_id : {A : Type 0} → List A → ℕ → Option A
at_id list zero = none
at_id list (suc i) = get_elem? list i

abbrev scaled : List Monomial → ShamirGaloisRingShare → Option Monomial
scaled polys s = do l ← at_id polys s.id; some (Galois.mul s.y l)

unfoldable pub reconstruct_deg_2_shares : Trio ShamirGaloisRingShare → Option Monomial
reconstruct_deg_2_shares shares = do
  polys ← deg_2_lagrange_polys_at_zero
  x ← scaled polys shares.p0
  y ← scaled polys shares.p1
  z ← scaled polys shares.p2
  some (Galois.add (Galois.add x y) z)
