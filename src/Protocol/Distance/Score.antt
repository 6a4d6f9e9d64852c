-- ===== src/Protocol/Distance/Score.antt =====
-- The comparison of the scores of two irises, as counts of positions.
use iris_mpc.Prelude.{ℕ, ◌+◌, ◌-◌, ◌*◌, ◌%◌, ◌^◌, ◌<◌, ◌≤◌, ◌≡◌, ◌∙◌, ap, Bool, ltb, arith}
use iris_mpc.Prelude.Bits.{bit_at}
use iris_mpc.Shares.RingElement.{wrapping_sub, wrapping_mul}
use iris_mpc.IrisCode.{IrisCode}
use iris_mpc.GaloisEngine.Counts.{count, count-le, both_set, differ, agree, products-counts}
use iris_mpc.GaloisEngine.Shares.{code_score, mask_score}
use iris_mpc.Protocol.Compare.{bound_a, bound_b}
use iris_mpc.Protocol.Compare.Correct.{below_zero}
use iris_mpc.Protocol.Compare.Sign.{sign}

-- Over all positions where both masks are set, the codes agree so often that a quarter of the mask's
-- score and the number of differences are together less than the number of agreements.
abbrev pub is_similar : IrisCode → IrisCode → Bool
is_similar x y =
    ltb (mask_score x y * bound_a + count (differ x y) 3200 0 * bound_b)
      (count (agree x y) 3200 0 * bound_b)

signed_difference :
    (m c a d : ℕ)
    → m ≤ 12800
    → a ≤ 12800
    → d ≤ 12800
    → c < 2 ^ 16
    → (c + d) % 2 ^ 16 ≡ a % 2 ^ 16
    → below_zero m bound_a c bound_b ≡ ltb (m * bound_a + d * bound_b) (a * bound_b)
unfolding wrapping_sub wrapping_mul
signed_difference m c a d hm ha hd hc e =
    let u = m * bound_a + d * bound_b in
    let v = a * bound_b in
    let same : ((m * bound_a) % 2 ^ 32 + (2 ^ 32 - (c * bound_b) % 2 ^ 32)) % 2 ^ 32
        ≡ (u + (2 ^ 32 - v)) % 2 ^ 32 =
      omega arith in
    ap (λ n. bit_at n 31) same ∙ sign u v (omega arith) (omega arith)

pub below_zero-is_similar :
    (x y : IrisCode) → below_zero (mask_score x y) bound_a (code_score x y) bound_b ≡ is_similar x y
below_zero-is_similar x y =
    signed_difference (mask_score x y) (code_score x y) (count (agree x y) 3200 0)
      (count (differ x y) 3200 0) (omega (arith, count-le (both_set x y) 1600 0))
      (omega (arith, count-le (agree x y) 3200 0)) (omega (arith, count-le (differ x y) 3200 0))
      (omega arith) (omega (arith, products-counts x y 3200 0))
