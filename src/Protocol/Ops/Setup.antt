-- ===== src/Protocol/Ops/Setup.antt =====
-- The set-up of the generators puts them in step.
use iris_mpc.Prelude.{ℕ, List, refl}
use iris_mpc.Id.{id0, id1, id2, next_id, prev_id, Trio, at, map_trio}
use iris_mpc.Execution.Role.{Identity}
use iris_mpc.Network.Value.{prf_key}
use iris_mpc.Protocol.Platform.{Platform}
use iris_mpc.Protocol.Prf.{Prf, new}
use iris_mpc.Protocol.Prf.Zero.{IsSynced}
use iris_mpc.Protocol.Program.{Session, ok_or_fail}
use iris_mpc.Protocol.Run.{IsParties, Runs, exchange}
use iris_mpc.Protocol.Ops.{setup_replicated_prf, expect_prf_key}
use iris_mpc.Protocol.Ops.CrossMul.{identity_after_lem, identity_before_lem}

module _ {P : Platform} {R : Type 0} (ids : Trio Identity) (s : Trio (Session P)) where
  -- Whatever seeds three parties start from, the set-up ends without an error, and gives generators
  -- of which each party's second one is in the state of the previous party's first one.
  pub setup_replicated_prf-IsSynced :
      (seeds : Trio (List ℕ))
      → IsParties ids s
      → (q : Trio (Prf P)) × IsSynced q
        × Runs {R = R} ids (map_trio setup_replicated_prf seeds) s q s
  unfolding setup_replicated_prf new next_id prev_id
  setup_replicated_prf-IsSynced seeds h =
      let q : Trio (Prf P) = record {
        p0 = new P seeds.p0 seeds.p2;
        p1 = new P seeds.p1 seeds.p0;
        p2 = new P seeds.p2 seeds.p1;
      } in
      (
        q,
        record { prev0 = refl; prev1 = refl; prev2 = refl },
        λ k.
            rw
              (
                identity_after_lem ids s h id0,
                identity_after_lem ids s h id1,
                identity_after_lem ids s h id2,
                identity_before_lem ids s h id0,
                identity_before_lem ids s h id1,
                identity_before_lem ids s h id2,
              )
              (exchange P ids h.apart (map_trio prf_key seeds)
                λ i v. ok_or_fail (expect_prf_key v) (λ c. k i (new P (at seeds i) c) (at s i))),
      )
