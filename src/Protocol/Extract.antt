-- ===== src/Protocol/Extract.antt =====
-- iris-mpc-cpu/src/protocol/binary.rs: the most significant bit of shared numbers.
pub mod Parts
pub mod Rows
pub mod Bits
pub mod Correct
pub mod Top
pub mod Single
use iris_mpc.Prelude.{ℕ, List, [], ◌∷◌, Option, some}
use iris_mpc.Execution.Session.{BootSession, ◌>>=◌ as bind}
use iris_mpc.Shares.RingElement.{get_bit_as_bit}
use iris_mpc.Shares.Share.{Share, new}
use iris_mpc.Shares.VecShare.{VecShare, get_at}
use iris_mpc.Shares.TransposePack.U32.{transpose_pack_u64_with_len}
use iris_mpc.Protocol.Platform.{Platform}
use iris_mpc.Protocol.Program.{Program, ◌>>=◌, pure, try, ask}
use iris_mpc.Protocol.Convert.{a2b_pre}
use iris_mpc.Protocol.Adder.{binary_add_3_get_msb}

-- The three vectors of the parts of a vector.
unfoldable pub a2b_row : BootSession → VecShare → Option (VecShare × VecShare × VecShare)
a2b_row session [] = some ([], [], [])
a2b_row session (x ∷ xs) =
    bind (a2b_pre session x)
      λ (x1, x2, x3). bind (a2b_row session xs) λ (r1, r2, r3). some (x1 ∷ r1, x2 ∷ r2, x3 ∷ r3)

-- The same for every row.
unfoldable pub a2b_rows :
    BootSession → List VecShare → Option (List VecShare × List VecShare × List VecShare)
a2b_rows session [] = some ([], [], [])
a2b_rows session (x ∷ xs) =
    bind (a2b_row session x)
      λ (x1, x2, x3). bind (a2b_rows session xs) λ (r1, r2, r3). some (x1 ∷ r1, x2 ∷ r2, x3 ∷ r3)

module _ {P : Platform} {R : Type 0} where
  unfoldable pub extract_msb : List VecShare → Program P R VecShare
  extract_msb x = do
    (x1, x2, x3) ← ask (λ session. a2b_rows session x)
    binary_add_3_get_msb x1 x2 x3

  -- For `l` rows, the constant `K` of the source.
  unfoldable pub extract_msb_u32 : ℕ → VecShare → Program P R VecShare
  unfolding extract_msb
  extract_msb_u32 l x_ = do x ← try (transpose_pack_u64_with_len l x_); extract_msb x

  unfoldable pub single_extract_msb_u32 : Share → Program P R Share
  unfolding extract_msb_u32
  single_extract_msb_u32 x = do
    v ← extract_msb_u32 32 (x ∷ [])
    s ← try (get_at v 0)
    pure (new (get_bit_as_bit s.a 0) (get_bit_as_bit s.b 0))
