-- ===== src/Protocol/And.antt =====
-- iris-mpc-cpu/src/protocol/binary.rs: the AND of two shared vectors of words.
pub mod Masks
pub mod Correct
use iris_mpc.Prelude.{
  ℕ, List, [], ◌∷◌, Option, none, some, bit_xor, length, ◌==◌, Bool, true, false,
}
use iris_mpc.Execution.Session.{next_identity, prev_identity}
use iris_mpc.Network.Value.{NetworkValue, vec_ring64}
use iris_mpc.Shares.Share.{Share, and_local}
use iris_mpc.Shares.VecShare.{VecShare, from_ab}
use iris_mpc.Protocol.Platform.{Platform}
use iris_mpc.Protocol.Prf.{Prf, gen_binary_zero_share}
use iris_mpc.Protocol.Program.{
  Program, ◌>>=◌, ◌>>◌, pure, fail, try, ask, with_prf, send_value, receive_value,
}

abbrev pub expect_vec_ring64 : NetworkValue → Option (List ℕ)
expect_vec_ring64 (vec_ring64 message) = some message
expect_vec_ring64 _ = none

-- The loop of `and_many_send`: each local AND under a fresh binary share of zero.
pub masked_ands : (P : Platform) → ℕ → VecShare → VecShare → Prf P → List ℕ × Prf P
masked_ands P k [] ys prf = ([], prf)
masked_ands P k (x ∷ xs) [] prf = ([], prf)
masked_ands P k (x ∷ xs) (y ∷ ys) prf =
    let (rand, prf') = gen_binary_zero_share P k prf in
    let (rest, prf'') = masked_ands P k xs ys prf' in (bit_xor (and_local x y) rand ∷ rest, prf'')

module _ {P : Platform} {R : Type 0} where
  abbrev pub guard : Bool → Program P R (Unit {0})
  guard true = pure tt
  guard false = fail

  unfoldable pub and_many_send : VecShare → VecShare → Program P R (List ℕ)
  and_many_send a b = do
    guard (length a == length b)
    shares_a ← with_prf (masked_ands P 64 a b)
    next_party ← ask next_identity
    send_value (vec_ring64 shares_a) next_party
    pure shares_a

  unfoldable pub and_many_receive : Program P R (List ℕ)
  and_many_receive = do
    prev_party ← ask prev_identity
    reply ← receive_value prev_party
    try (expect_vec_ring64 reply)

  unfoldable pub and_many : VecShare → VecShare → Program P R VecShare
  unfolding and_many_send and_many_receive
  and_many a b = do
    shares_a ← and_many_send a b
    shares_b ← and_many_receive
    pure (from_ab shares_a shares_b)
