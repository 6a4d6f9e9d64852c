-- ===== src/Protocol/Adder.antt =====
-- iris-mpc-cpu/src/protocol/binary.rs: the adders of three shared numbers whose bits lie in words,
-- one vector of words for each position.
pub mod Circuit
pub mod Sum
pub mod Slices
pub mod Ripple
pub mod Rows
pub mod Msb
pub mod Summands
pub mod Highest
pub mod Columns
pub mod Carries
pub mod TwoCarries
pub mod Errors
use iris_mpc.Prelude.{ℕ, List, [], ◌∷◌, get_elem?, drop}
use iris_mpc.Shares.VecShare.{VecShare, pop, xor_assign, convert_to_bits, truncate}
use iris_mpc.Protocol.Platform.{Platform}
use iris_mpc.Protocol.Program.{Program, ◌>>=◌, pure, try}
use iris_mpc.Protocol.And.{and_many}
use iris_mpc.Protocol.Pack.{transposed_pack_xor_assign, transposed_pack_xor, transposed_pack_and}

module _ {P : Platform} {R : Type 0} where
  -- The loop of both adders over the places above the second one, from the carry `c`.
  unfoldable pub ripple_carry : VecShare → List VecShare → List VecShare → Program P R VecShare
  ripple_carry c (a ∷ as') (b ∷ bs) = do
    tmp_c ← and_many (xor_assign a c) (xor_assign b c)
    ripple_carry (xor_assign c tmp_c) as' bs
  ripple_carry c _ _ = pure c

  -- The rest of `binary_add_3_get_msb`, from the sums `a` and the carries `b` on.
  unfoldable pub msb_of_sum : List VecShare → List VecShare → Program P R VecShare
  msb_of_sum a b = do
    a1 ← try (get_elem? a 1)
    b0 ← try (get_elem? b 0)
    c ← and_many a1 b0
    (as', a_msb) ← try (pop a)
    (bs, b_msb) ← try (pop b)
    c' ← ripple_carry c (drop 2 as') (drop 1 bs)
    pure (xor_assign (xor_assign a_msb b_msb) c')

  unfoldable pub binary_add_3_get_msb :
      List VecShare → List VecShare → List VecShare → Program P R VecShare
  unfolding msb_of_sum
  binary_add_3_get_msb x1 x2 x3 = do
    let x2x3 = transposed_pack_xor_assign x2 x3
    let s = transposed_pack_xor x1 x2x3
    let x1x3 = transposed_pack_xor_assign x1 x3
    (x1x3, last1) ← try (pop x1x3)
    (x2x3, last2) ← try (pop x2x3)
    (x3, last3) ← try (pop x3)
    c ← transposed_pack_and x1x3 x2x3
    msb_of_sum s (transposed_pack_xor_assign c x3)

  -- The rest of `binary_add_3_get_two_carries`, from the sums `a` and the carries `b` on.
  unfoldable pub carries_of_sum :
      List VecShare → List VecShare → ℕ → Program P R (VecShare × VecShare)
  carries_of_sum a b truncate_len = do
    a1 ← try (get_elem? a 1)
    b0 ← try (get_elem? b 0)
    c ← and_many a1 b0
    (bs, b_msb) ← try (pop b)
    c' ← ripple_carry c (drop 2 a) (drop 1 bs)
    res2 ← and_many b_msb c'
    pure (
      truncate (convert_to_bits 64 (xor_assign b_msb c')) truncate_len,
      truncate (convert_to_bits 64 res2) truncate_len,
    )

  unfoldable pub binary_add_3_get_two_carries :
      List VecShare → List VecShare → List VecShare → ℕ → Program P R (VecShare × VecShare)
  unfolding carries_of_sum
  binary_add_3_get_two_carries x1 x2 x3 truncate_len = do
    let x2x3 = transposed_pack_xor_assign x2 x3
    let s = transposed_pack_xor x1 x2x3
    let x1x3 = transposed_pack_xor_assign x1 x3
    c ← transposed_pack_and x1x3 x2x3
    carries_of_sum s (transposed_pack_xor_assign c x3) truncate_len
