-- ===== src/Shares/TransposePack/Vectors.antt =====
-- The functions of all three kinds of vectors.
use iris_mpc.Prelude.{ℕ, tabulate, arith}
use iris_mpc.Shares.Share.{Share}
use iris_mpc.Shares.Transpose.{
  share_transpose16x64, share_transpose16x128, share_transpose32x64, share_transpose32x128,
  share_transpose64x64, share_transpose64x128,
}
use iris_mpc.Shares.Transpose.Within.{AreWithin}
use iris_mpc.Shares.Transpose.Arrays.{
  share_transpose16x64-IsTransposed, share_transpose16x128-IsTransposed,
  share_transpose32x64-IsTransposed, share_transpose32x128-IsTransposed,
  share_transpose64x64-IsTransposed, share_transpose64x128-IsTransposed,
}
use iris_mpc.Shares.TransposePack.U16
use iris_mpc.Shares.TransposePack.U32
use iris_mpc.Shares.TransposePack.U64
use iris_mpc.Shares.TransposePack.Correct.{ArePacked, transpose_pack-ArePacked}

-- For `k` shares of 16 bits, packing into words of 64 and of 128 bits for `l` rows both succeed.
-- The result has `l` rows of one word for every 64 or 128 shares, the last group filled with
-- zeros. In the rows below 16, bit `b` of the word `j` is, in each of the two components, the
-- row's bit of the share at the position `b` of the group `j`. The other rows are zeros, and all
-- words are within the width.
pub u16-ArePacked :
    (l k : ℕ) (f : ℕ → Share)
    → AreWithin 16 f
    → ArePacked 16 64 l k f (U16.transpose_pack_u64_with_len l (tabulate k f))
      × ArePacked 16 128 l k f (U16.transpose_pack_u128_with_len l (tabulate k f))
unfolding U16.transpose_pack_u64_with_len U16.transpose_pack_u128_with_len
u16-ArePacked l k f h = (
  transpose_pack-ArePacked share_transpose16x64 16 64 (omega arith)
      share_transpose16x64-IsTransposed l k f h,
  transpose_pack-ArePacked share_transpose16x128 16 128 (omega arith)
      share_transpose16x128-IsTransposed l k f h,
)

-- For `k` shares of 32 bits, packing into words of 64 and of 128 bits for `l` rows both succeed.
-- The result has `l` rows of one word for every 64 or 128 shares, the last group filled with
-- zeros. In the rows below 32, bit `b` of the word `j` is, in each of the two components, the
-- row's bit of the share at the position `b` of the group `j`. The other rows are zeros, and all
-- words are within the width.
pub u32-ArePacked :
    (l k : ℕ) (f : ℕ → Share)
    → AreWithin 32 f
    → ArePacked 32 64 l k f (U32.transpose_pack_u64_with_len l (tabulate k f))
      × ArePacked 32 128 l k f (U32.transpose_pack_u128_with_len l (tabulate k f))
unfolding U32.transpose_pack_u64_with_len U32.transpose_pack_u128_with_len
u32-ArePacked l k f h = (
  transpose_pack-ArePacked share_transpose32x64 32 64 (omega arith)
      share_transpose32x64-IsTransposed l k f h,
  transpose_pack-ArePacked share_transpose32x128 32 128 (omega arith)
      share_transpose32x128-IsTransposed l k f h,
)

-- For `k` shares of 64 bits, packing into words of 64 and of 128 bits for `l` rows both succeed.
-- The result has `l` rows of one word for every 64 or 128 shares, the last group filled with
-- zeros. In the rows below 64, bit `b` of the word `j` is, in each of the two components, the
-- row's bit of the share at the position `b` of the group `j`. The other rows are zeros, and all
-- words are within the width.
u64-ArePacked :
    (l k : ℕ) (f : ℕ → Share)
    → AreWithin 64 f
    → ArePacked 64 64 l k f (U64.transpose_pack_u64_with_len l (tabulate k f))
      × ArePacked 64 128 l k f (U64.transpose_pack_u128_with_len l (tabulate k f))
unfolding U64.transpose_pack_u64_with_len U64.transpose_pack_u128_with_len
u64-ArePacked l k f h = (
  transpose_pack-ArePacked share_transpose64x64 64 64 (omega arith)
      share_transpose64x64-IsTransposed l k f h,
  transpose_pack-ArePacked share_transpose64x128 64 128 (omega arith)
      share_transpose64x128-IsTransposed l k f h,
)
