-- ===== src/Shares/TransposePack/U32.antt =====
-- The functions of `VecShare<u32>`.
use iris_mpc.Prelude.{ℕ, List, Option}
use iris_mpc.Shares.Share.{Share}
use iris_mpc.Shares.Transpose.{share_transpose32x64, share_transpose32x128}
use iris_mpc.Shares.TransposePack.{transpose_pack}

unfoldable pub transpose_pack_u64_with_len : ℕ → List Share → Option (List (List Share))
transpose_pack_u64_with_len = transpose_pack share_transpose32x64 64

unfoldable pub transpose_pack_u64 : List Share → Option (List (List Share))
transpose_pack_u64 = transpose_pack_u64_with_len 32

unfoldable pub transpose_pack_u128_with_len : ℕ → List Share → Option (List (List Share))
transpose_pack_u128_with_len = transpose_pack share_transpose32x128 128

unfoldable pub transpose_pack_u128 : List Share → Option (List (List Share))
transpose_pack_u128 = transpose_pack_u128_with_len 32
