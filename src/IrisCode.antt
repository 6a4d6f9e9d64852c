-- ===== src/IrisCode.antt =====
-- iris-mpc-common/src/iris_db/iris.rs: iris codes, arrays of 12,800 bits in 200 words of 64 bits.
pub mod Arrays
pub mod Writes
pub mod Iterator
use iris_mpc.Prelude.Bits.{bit_at, to_nat}
use iris_mpc.Prelude.Sums.{sum_below}
use iris_mpc.Prelude.{
  ℕ, zero, suc, ◌+◌, ◌-◌, ◌*◌, ◌/◌, ◌%◌, ◌^◌, Bool, true, false, ◌==◌, ltb, if◌then◌else◌, Option,
  none, some, bit_and, bit_or, bit_xor,
}

abbrev pub iris_code_size : ℕ
iris_code_size = 12800

abbrev pub iris_code_size_u64 : ℕ
iris_code_size_u64 = (iris_code_size + 63) / 64

-- The words, by their index below `iris_code_size_u64`. The source panics for other indices.
abbrev pub IrisCodeArray : Type 0
IrisCodeArray = ℕ → ℕ

abbrev pub zeros : IrisCodeArray
zeros word = 0

abbrev pub ones : IrisCodeArray
ones word = 2 ^ 64 - 1

-- Another word at one index.
abbrev pub with_word : IrisCodeArray → ℕ → ℕ → IrisCodeArray
with_word code word w i = if i == word then w else code i

unfoldable pub set_bit : IrisCodeArray → ℕ → Bool → IrisCodeArray
set_bit code i true = with_word code (i / 64) (bit_or (code (i / 64)) (2 ^ (i % 64)))
set_bit code i false = with_word code (i / 64) (bit_and (code (i / 64)) (2 ^ 64 - 1 - 2 ^ (i % 64)))

unfoldable pub get_bit : IrisCodeArray → ℕ → Bool
get_bit code i = bit_and (code (i / 64) / 2 ^ (i % 64)) 1 == 1

unfoldable pub flip_bit : IrisCodeArray → ℕ → IrisCodeArray
flip_bit code i = with_word code (i / 64) (bit_xor (code (i / 64)) (2 ^ (i % 64)))

unfoldable pub bitand : IrisCodeArray → IrisCodeArray → IrisCodeArray
bitand code rhs word = bit_and (code word) (rhs word)

unfoldable pub bitxor : IrisCodeArray → IrisCodeArray → IrisCodeArray
bitxor code rhs word = bit_xor (code word) (rhs word)

-- `u64::count_ones`, of every word.
unfoldable pub count_ones : IrisCodeArray → ℕ
count_ones code =
    sum_below iris_code_size_u64 (λ word. sum_below 64 (λ b. to_nat (bit_at (code word) b)))

pub record IrisCode : Type 0 where
  pub code : IrisCodeArray
  pub mask : IrisCodeArray

-- The distance as a fraction: the number of differences, and the size of the common mask.
unfoldable pub get_distance : IrisCode → IrisCode → ℕ × ℕ
unfolding count_ones
get_distance self other =
    let combined_mask = bitand self.mask other.mask in
    let combined_mask_len = count_ones combined_mask in
    let combined_code = bitand (bitxor self.code other.code) combined_mask in
    let code_distance = count_ones combined_code in (code_distance, combined_mask_len)

-- Whether the distance is below `MATCH_THRESHOLD_RATIO`, 3/8. No quotient of numbers up to 12,800 is
-- rounded across the bound, and the quotient of 0 and 0 is below no bound.
unfoldable pub is_close : IrisCode → IrisCode → Bool
is_close self other =
    let (code_distance, combined_mask_len) = get_distance self other in
    ltb (8 * code_distance) (3 * combined_mask_len)

-- The iterator over the bits.
pub record Bits : Type 0 where
  pub code : IrisCodeArray
  pub current : ℕ
  pub index : ℕ

unfoldable pub bits : IrisCodeArray → Bits
bits code = record { code = code; current = 0; index = 0 }

-- The next bit, and the iterator after it.
unfoldable pub next : Bits → Option (Bool × Bits)
next it =
    if ltb it.index iris_code_size
    then (let current = if it.index % 64 == 0 then it.code (it.index / 64) else it.current in
        some (
          bit_and current 1 == 1,
          record { code = it.code; current = current / 2; index = it.index + 1 },
        ))
    else none
