-- ===== src/Shares/TransposePack/Packer.antt =====
-- The functions that make one row of words of 64 bits for each bit of the shares.
use iris_mpc.Prelude.{ℕ, List, Option, tabulate}
use iris_mpc.Shares.Share.{Share}
use iris_mpc.Shares.Transpose.Within.{AreWithin}
use iris_mpc.Shares.TransposePack.U16
use iris_mpc.Shares.TransposePack.U32
use iris_mpc.Shares.TransposePack.Correct.{ArePacked}
use iris_mpc.Shares.TransposePack.Vectors.{u16-ArePacked, u32-ArePacked}

-- For shares of `width` bits.
pub record Packer : Type 0 where
  pub width : ℕ
  pub pack : List Share → Option (List (List Share))
  pub packed :
      (k : ℕ) (f : ℕ → Share)
      → AreWithin width f
      → ArePacked width 64 width k f (pack (tabulate k f))

abbrev pub u16_packer : Packer
u16_packer = record {
  width = 16;
  pack = U16.transpose_pack_u64_with_len 16;
  packed = λ k f h. (u16-ArePacked 16 k f h).0;
}

abbrev pub u32_packer : Packer
u32_packer = record {
  width = 32;
  pack = U32.transpose_pack_u64_with_len 32;
  packed = λ k f h. (u32-ArePacked 32 k f h).0;
}
