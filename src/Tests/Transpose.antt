-- ===== src/Tests/Transpose.antt =====
-- Shares whose bits are packed.
use iris_mpc.Prelude.{ℕ, ◌%◌, ◌+◌, tabulate, arith}
use iris_mpc.Shares.Share.{Share}
use iris_mpc.Shares.Transpose.Within.{AreWithin}
use iris_mpc.Shares.TransposePack.U32
use iris_mpc.Shares.TransposePack.Correct.{ArePacked}
use iris_mpc.Shares.TransposePack.Vectors.{u32-ArePacked}

abbrev some_shares : ℕ → Share
some_shares i = record { a = i % 1000; b = (i + 7) % 1000 }

within32 : AreWithin 32 some_shares
within32 = record { a = λ i. omega arith; b = λ i. omega arith }

u32-ArePacked_example :
    ArePacked 32 64 32 70 some_shares (U32.transpose_pack_u64_with_len 32 (tabulate 70 some_shares))
    × ArePacked 32 128 32 70 some_shares
        (U32.transpose_pack_u128_with_len 32 (tabulate 70 some_shares))
u32-ArePacked_example = u32-ArePacked 32 70 some_shares within32
