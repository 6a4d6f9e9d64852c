-- ===== src/Protocol/Compare/Sign.antt =====
-- When no product wraps around, the highest bit of the difference is the order of the products.
use iris_mpc.Prelude.{ℕ, ◌+◌, ◌-◌, ◌*◌, ◌/◌, ◌%◌, ◌^◌, ◌<◌, ◌≡◌, ◌∙◌, sym, ltb, arith}
use iris_mpc.Prelude.Bits.{bit_at}
use iris_mpc.Prelude.Shifts.{bit_at-shr}
use iris_mpc.Shares.RingElement.{wrapping_sub, wrapping_mul}
use iris_mpc.Protocol.Compare.{bound_a, bound_b}
use iris_mpc.Protocol.Compare.Correct.{below_zero}

pub sign : (u v : ℕ) → u < 2 ^ 31 → v < 2 ^ 31 → bit_at ((u + (2 ^ 32 - v)) % 2 ^ 32) 31 ≡ ltb u v
sign u v hu hv = let x = (u + (2 ^ 32 - v)) % 2 ^ 32 in sym (bit_at-shr x 31 0) ∙ top u v hu hv
  where
    top :
        (u v : ℕ)
        → u < 2 ^ 31
        → v < 2 ^ 31
        → bit_at ((u + (2 ^ 32 - v)) % 2 ^ 32 / 2 ^ 31) 0 ≡ ltb u v
    top u v hu hv = ground arith

pub below_zero-ltb :
    (m c : ℕ)
    → m < 2 ^ 16
    → c < 2 ^ 15
    → below_zero m bound_a c bound_b ≡ ltb (m * bound_a) (c * bound_b)
unfolding wrapping_sub wrapping_mul
below_zero-ltb m c hm hc =
    let e : (m * bound_a) % 2 ^ 32 ≡ m * bound_a = omega arith in
    let f : (c * bound_b) % 2 ^ 32 ≡ c * bound_b = omega arith in
    rw (e, f) (sign (m * bound_a) (c * bound_b) (omega arith) (omega arith))
