-- ===== src/GaloisEngine/Shares.antt =====
-- The parties' shares of two irises: their dot products add up to the scores of the irises.
use iris_mpc.Prelude.{
  ℕ, zero, suc, ◌+◌, ◌*◌, ◌%◌, ◌^◌, ◌≤◌, ◌≡◌, refl, ap, List, ◌∷◌, Option, some, take, arith,
}
use iris_mpc.Prelude.Bits.{to_nat}
use iris_mpc.Id.{Trio, map_trio, zip_trio}
use iris_mpc.Execution.Session.{◌>>=◌}
use iris_mpc.Shares.RingElement.{wrapping_mul}
use iris_mpc.Shares.Sharing.Linear.{mod-lt-pow}
use iris_mpc.Shares.Sharing.Additive.{IsAdditive}
use iris_mpc.IrisCode.{IrisCode, get_bit}
use iris_mpc.Galois.{Monomial, one_element}
use iris_mpc.Galois.Shamir.Lagrange.{l1, l2}
use iris_mpc.GaloisEngine.{
  FullGaloisRingIrisCodeShare, dot_loop, trick_dot, mask_trick_dot, trimmed, mask_code_length,
  preprocess_iris_code_query_share, preprocess_mask_code_query_share, encode_groups, masked_bit,
  encode_iris_code, encode_mask_code, full_encode_iris_code,
}
use iris_mpc.GaloisEngine.Dot.{
  dot_loop_lem, prepared, products, groups-dot, encode_groups-AreGroups, preprocess_coefs-party1,
  preprocess_coefs-party2, preprocess_coefs-party3,
}
use iris_mpc.GaloisEngine.Counts.{count, count-le, both_set, products-both_set}

-- An iris with the random elements of its shares.
pub record Encoded : Type 0 where
  pub iris : IrisCode
  pub code_random : ℕ → Monomial
  pub mask_random : ℕ → Monomial

abbrev pub shares_of : Encoded → Trio FullGaloisRingIrisCodeShare
shares_of e = full_encode_iris_code e.iris e.code_random e.mask_random

-- The sum of the products of the masked bits, with wrap-around, and twice the number of the positions
-- in the first half of the indices at which both masks are set.
abbrev pub code_score : IrisCode → IrisCode → ℕ
code_score x y = products (masked_bit x.code x.mask) (masked_bit y.code y.mask) 3200 0 % 2 ^ 16

abbrev pub mask_score : IrisCode → IrisCode → ℕ
mask_score x y = 2 * count (both_set x y) 1600 0

-- Both parts of a share, prepared for a comparison.
abbrev pub prepare : FullGaloisRingIrisCodeShare → Option FullGaloisRingIrisCodeShare
prepare s = do
  code ← preprocess_iris_code_query_share s.code
  mask ← preprocess_mask_code_query_share s.mask
  some (record { code = code; mask = mask })

-- The dot products of shares and of prepared shares.
abbrev three_dots : Trio (List ℕ) → Trio (List ℕ) → Trio ℕ
three_dots s t = record {
  p0 = dot_loop 0 s.p0 (prepared l1 t.p0);
  p1 = dot_loop 0 s.p1 (prepared l2 t.p1);
  p2 = dot_loop 0 s.p2 (prepared one_element t.p2);
}

three_dots-IsAdditive :
    (u v : ℕ → ℕ) (r q : ℕ → Monomial) (n : ℕ)
    → IsAdditive 16
        (three_dots (encode_groups u r n 0) (encode_groups v q n 0))
        (products u v n 0 % 2 ^ 16)
three_dots-IsAdditive u v r q n =
    let s = encode_groups u r n 0 in
    let t = encode_groups v q n 0 in
    let e0 = dot_loop_lem s.p0 (prepared l1 t.p0) in
    let e1 = dot_loop_lem s.p1 (prepared l2 t.p1) in
    let e2 = dot_loop_lem s.p2 (prepared one_element t.p2) in
    record {
      lt0 = rw e0 (mod-lt-pow 16 _);
      lt1 = rw e1 (mod-lt-pow 16 _);
      lt2 = rw e2 (mod-lt-pow 16 _);
      value = omega (arith, e0, e1, e2, groups-dot u v r q n 0);
    }

-- The coefficients of three shares before those of more groups.
abbrev before_rest : Trio Monomial → Trio (List ℕ) → Trio (List ℕ)
before_rest y rest = record {
  p0 = y.p0.c0 ∷ y.p0.c1 ∷ y.p0.c2 ∷ y.p0.c3 ∷ rest.p0;
  p1 = y.p1.c0 ∷ y.p1.c1 ∷ y.p1.c2 ∷ y.p1.c3 ∷ rest.p1;
  p2 = y.p2.c0 ∷ y.p2.c1 ∷ y.p2.c2 ∷ y.p2.c3 ∷ rest.p2;
}

take-groups :
    (v : ℕ → ℕ) (q : ℕ → Monomial) (n m k i : ℕ)
    → n ≤ m
    → k ≡ 4 * n
    → map_trio (take k) (encode_groups v q m i) ≡ encode_groups v q n i
unfolding encode_groups
take-groups v q zero m k i h e = let none_left : k ≡ 0 = omega arith in rw none_left refl
take-groups v q (suc n) zero k i h e = absurd (omega arith)
take-groups v q (suc n) (suc m) k i h e =
    let four_more : k ≡ suc (suc (suc (suc (4 * n)))) = omega arith in
    rw four_more (ap (before_rest _) (take-groups v q n m (4 * n) (i + 4) (omega arith) refl))

trimmed-groups :
    (v : ℕ → ℕ) (q : ℕ → Monomial)
    → map_trio (take mask_code_length) (encode_groups v q 3200 0) ≡ encode_groups v q 1600 0
trimmed-groups v q = take-groups v q 1600 3200 6400 0 (omega arith) refl

-- What the parties have of a prepared iris.
abbrev prepared_trio : Trio (List ℕ) → Trio (List ℕ)
prepared_trio t = record {
  p0 = prepared l1 t.p0;
  p1 = prepared l2 t.p1;
  p2 = prepared one_element t.p2;
}

abbrev code_coefs : Encoded → Trio (List ℕ)
code_coefs e = encode_groups (masked_bit e.iris.code e.iris.mask) e.code_random 3200 0

abbrev mask_coefs : Encoded → Trio (List ℕ)
mask_coefs e = encode_groups (λ i. to_nat (get_bit e.iris.mask i)) e.mask_random 1600 0

-- The shares with given coefficients.
abbrev with_coefs : Trio (List ℕ) → Trio (List ℕ) → Trio FullGaloisRingIrisCodeShare
with_coefs c m = record {
  p0 = record { code = record { id = 1; coefs = c.p0 }; mask = record { id = 1; coefs = m.p0 } };
  p1 = record { code = record { id = 2; coefs = c.p1 }; mask = record { id = 2; coefs = m.p1 } };
  p2 = record { code = record { id = 3; coefs = c.p2 }; mask = record { id = 3; coefs = m.p2 } };
}

shares_of-coefs : (e : Encoded) → shares_of e ≡ with_coefs (code_coefs e) (mask_coefs e)
unfolding full_encode_iris_code encode_iris_code encode_mask_code trimmed
shares_of-coefs e =
    ap (with_coefs (code_coefs e))
      (trimmed-groups (λ i. to_nat (get_bit e.iris.mask i)) e.mask_random)

abbrev pub prepared_of : Encoded → Trio FullGaloisRingIrisCodeShare
prepared_of e = with_coefs (prepared_trio (code_coefs e)) (prepared_trio (mask_coefs e))

-- Every party can prepare its share.
pub prepare-shares_of :
    (e : Encoded) → map_trio prepare (shares_of e) ≡ map_trio some (prepared_of e)
unfolding preprocess_iris_code_query_share preprocess_mask_code_query_share
prepare-shares_of e =
    let (c0, c1, c2) =
      encode_groups-AreGroups (masked_bit e.iris.code e.iris.mask) e.code_random 3200 0 in
    let (m0, m1, m2) =
      encode_groups-AreGroups (λ i. to_nat (get_bit e.iris.mask i)) e.mask_random 1600 0 in
    rw
      (
        shares_of-coefs e,
        preprocess_coefs-party1 c0,
        preprocess_coefs-party2 c1,
        preprocess_coefs-party3 c2,
        preprocess_coefs-party1 m0,
        preprocess_coefs-party2 m1,
        preprocess_coefs-party3 m2,
      )
      refl

abbrev pub code_dots : Trio FullGaloisRingIrisCodeShare → Trio FullGaloisRingIrisCodeShare → Trio ℕ
code_dots = zip_trio (λ s t. trick_dot s.code t.code)

-- Twice the dot product of the trimmed masks.
abbrev pub mask_dots : Trio FullGaloisRingIrisCodeShare → Trio FullGaloisRingIrisCodeShare → Trio ℕ
mask_dots = zip_trio (λ s t. wrapping_mul 16 2 (mask_trick_dot s.mask t.mask))

module _ (x y : Encoded) where
  pub code_dots-IsAdditive :
      IsAdditive 16 (code_dots (shares_of x) (prepared_of y)) (code_score x.iris y.iris)
  unfolding trick_dot
  code_dots-IsAdditive = rw (shares_of-coefs x) (
      three_dots-IsAdditive (masked_bit x.iris.code x.iris.mask)
        (masked_bit y.iris.code y.iris.mask) x.code_random y.code_random 3200)

  pub mask_dots-IsAdditive :
      IsAdditive 16 (mask_dots (shares_of x) (prepared_of y)) (mask_score x.iris y.iris)
  unfolding mask_trick_dot wrapping_mul
  mask_dots-IsAdditive = rw (shares_of-coefs x) (
      let s =
        three_dots-IsAdditive (λ i. to_nat (get_bit x.iris.mask i))
          (λ i. to_nat (get_bit y.iris.mask i)) x.mask_random y.mask_random 1600 in
      record {
        lt0 = mod-lt-pow 16 _;
        lt1 = mod-lt-pow 16 _;
        lt2 = mod-lt-pow 16 _;
        value = omega (
          arith,
          s.value,
          products-both_set x.iris y.iris 1600 0,
          count-le (both_set x.iris y.iris) 1600 0,
        );
      })
