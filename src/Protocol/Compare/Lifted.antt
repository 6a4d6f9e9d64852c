-- ===== src/Protocol/Compare/Lifted.antt =====
-- `lift_and_compare_threshold` gives shares of the sign, for shares of 16 bits.
use iris_mpc.Prelude.{ℕ, ◌≡◌, refl, List, [], ◌∷◌, tabulate, AllPairs, arith}
use iris_mpc.Prelude.Bits.{to_nat}
use iris_mpc.Id.{Trio, columns}
use iris_mpc.Execution.Role.{Identity}
use iris_mpc.Shares.RingElement.{wrapping_mul}
use iris_mpc.Shares.Share
use iris_mpc.Shares.Share.{Share}
use iris_mpc.Shares.VecShare.{VecShare, pop}
use iris_mpc.Shares.Sharing.{IsSharing, IsXorSharing}
use iris_mpc.Shares.Sharing.Linear.{sub-IsSharing, mul-IsSharing}
use iris_mpc.Protocol.Platform.{Platform}
use iris_mpc.Protocol.Program.{Session, Program, ◌>>=◌, try}
use iris_mpc.Protocol.Run.{IsReady, Yields}
use iris_mpc.Protocol.Compose.{then_made-Yields}
use iris_mpc.Protocol.Convert.{mul_lift_2k}
use iris_mpc.Protocol.Convert.Lift.{mul_lift_2k-IsSharing}
use iris_mpc.Protocol.Lift.{lift}
use iris_mpc.Protocol.Lift.Correct.{lifts, lift-Yields}
use iris_mpc.Protocol.Extract.{single_extract_msb_u32}
use iris_mpc.Protocol.Extract.Single.{only, single_extract_msb_u32-Yields}
use iris_mpc.Protocol.Compare.{bound_a, bound_b, lift_and_compare_threshold}
use iris_mpc.Protocol.Compare.Correct.{below_zero}

module _ {P : Platform} (R : Type 0) (ids : Trio Identity) where
  abbrev compare_lifted : Share → VecShare → Program P R Share
  compare_lifted code_dot lifted = do
    (rest, x) ← try (pop lifted)
    single_extract_msb_u32 (Share.sub 32 (Share.mul 32 x bound_a) (mul_lift_2k 16 code_dot))

  one_vector : (t : Share) → lift {P = P} {R = R} (tabulate 1 (λ _. t)) ≡ lift (t ∷ [])
  unfolding tabulate
  one_vector t = refl

  compare_lifted-Yields :
      (s : Trio (Session P)) (code : Trio Share) (ts : List (Trio Share)) (c m : ℕ)
      → IsReady ids s
      → IsSharing 16 code c
      → AllPairs (IsSharing 32) ts (tabulate 1 (λ _. m))
      → let v = columns ts in
        Yields ids s
          (record {
            p0 = compare_lifted code.p0 v.p0;
            p1 = compare_lifted code.p1 v.p1;
            p2 = compare_lifted code.p2 v.p2;
          })
          (λ v. IsXorSharing 1 v (to_nat (below_zero m bound_a c bound_b)))
  unfolding pop tabulate wrapping_mul
  compare_lifted-Yields s code ts c m h hc hts =
      let (u, made, q) = only hts in
      rw made (
        single_extract_msb_u32-Yields R ids s _ _ h (
          sub-IsSharing 32 (mul-IsSharing 32 bound_a q)
            (mul_lift_2k-IsSharing 16 (omega arith) hc)))

  pub lift_and_compare_threshold-Yields :
      (s : Trio (Session P)) (code mask : Trio Share) (c m : ℕ)
      → IsReady ids s
      → IsSharing 16 code c
      → IsSharing 16 mask m
      → Yields {R = R} ids s
          (record {
            p0 = lift_and_compare_threshold code.p0 mask.p0;
            p1 = lift_and_compare_threshold code.p1 mask.p1;
            p2 = lift_and_compare_threshold code.p2 mask.p2;
          })
          (λ v. IsXorSharing 1 v (to_nat (below_zero m bound_a c bound_b)))
  unfolding lift_and_compare_threshold
  lift_and_compare_threshold-Yields s code mask c m h hc hm =
      let f : Trio (VecShare → Program P R Share) = record {
        p0 = compare_lifted code.p0;
        p1 = compare_lifted code.p1;
        p2 = compare_lifted code.p2;
      } in
      rw (← one_vector mask.p0, ← one_vector mask.p1, ← one_vector mask.p2)
        (then_made-Yields ids columns (lifts 1 (λ _. mask)) f
          (lift-Yields R ids s 1 (λ _. mask) (λ _. m) h (λ _. hm))
          λ ts s' h' hts. compare_lifted-Yields s' code ts c m h' hc hts)
