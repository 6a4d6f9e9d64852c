-- ===== src/Protocol/Distance.antt =====
-- iris-mpc-cpu/src/protocol/ops.rs: distances of shared irises.
pub mod Score
pub mod Plain
pub mod Correct
use iris_mpc.Prelude.{ℕ, Bool, ◌==◌, if◌then◌else◌, List, [], ◌∷◌, Option, none, some, length}
use iris_mpc.Shares.Bit.{convert}
use iris_mpc.Shares.RingElement.{wrapping_mul}
use iris_mpc.Shares.VecShare.{get_at}
use iris_mpc.GaloisEngine.{FullGaloisRingIrisCodeShare, trick_dot, mask_trick_dot}
use iris_mpc.Protocol.Platform.{Platform}
use iris_mpc.Protocol.Program.{Program, ◌>>=◌, pure, try}
use iris_mpc.Protocol.Open.{open_bin}
use iris_mpc.Protocol.Ops.{galois_ring_to_rep3}
use iris_mpc.Protocol.Compare.{lift_and_compare_threshold}

-- A party's shares of an iris.
abbrev pub GaloisRingSharedIris : Type 0
GaloisRingSharedIris = FullGaloisRingIrisCodeShare

-- The session is not used.
unfoldable pub galois_ring_pairwise_distance :
    List (GaloisRingSharedIris × GaloisRingSharedIris) → List ℕ
galois_ring_pairwise_distance [] = []
galois_ring_pairwise_distance ((x, y) ∷ pairs) =
    let code_dot = trick_dot x.code y.code in
    let mask_dot = mask_trick_dot x.mask y.mask in
    code_dot ∷ wrapping_mul 16 2 mask_dot ∷ galois_ring_pairwise_distance pairs

-- The assertion that there is one pair.
abbrev one_pair :
    List (GaloisRingSharedIris × GaloisRingSharedIris)
    → Option (List (GaloisRingSharedIris × GaloisRingSharedIris))
one_pair pairs = if length pairs == 1 then some pairs else none

module _ {P : Platform} {R : Type 0} where
  unfoldable pub galois_ring_is_match :
      List (GaloisRingSharedIris × GaloisRingSharedIris) → Program P R Bool
  galois_ring_is_match pairs = do
    one ← try (one_pair pairs)
    rep_dots ← galois_ring_to_rep3 (galois_ring_pairwise_distance one)
    code_dot ← try (get_at rep_dots 0)
    mask_dot ← try (get_at rep_dots 1)
    bit ← lift_and_compare_threshold code_dot mask_dot
    opened ← open_bin bit
    pure (convert opened)
