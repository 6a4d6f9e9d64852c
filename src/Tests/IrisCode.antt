-- ===== src/Tests/IrisCode.antt =====
-- Bits of iris codes at concrete positions.
use iris_mpc.Prelude.{◌≡◌, ◌==◌, true, not, if◌then◌else◌, tabulate}
use iris_mpc.IrisCode.{IrisCodeArray, ones, with_word, set_bit, get_bit, flip_bit, bits}
use iris_mpc.IrisCode.Writes.{get_bit-set_bit}
use iris_mpc.IrisCode.Iterator.{collect, collect-bits}

abbrev mixed : IrisCodeArray
mixed = with_word ones 100 12345

get_bit-set_bit_example :
    (get_bit (set_bit mixed 6401 true) 6405 ≡ (if 6405 == 6401 then true else get_bit mixed 6405))
    × (get_bit (flip_bit mixed 6401) 6405
        ≡ (if 6405 == 6401 then not (get_bit mixed 6405) else get_bit mixed 6405))
get_bit-set_bit_example = get_bit-set_bit mixed 6401 6405 true

collect-bits_example : collect 12801 (bits mixed) ≡ tabulate 12800 (get_bit mixed)
collect-bits_example = collect-bits mixed
