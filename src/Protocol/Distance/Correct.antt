-- ===== src/Protocol/Distance/Correct.antt =====
-- `galois_ring_is_match` tells every party whether two irises are similar.
use iris_mpc.Prelude.{ℕ, ◌≡◌, refl, ap, Bool, List, [], ◌∷◌, AllPairs, nil, cons}
use iris_mpc.Id.{Trio, map_trio, columns}
use iris_mpc.Execution.Role.{Identity}
use iris_mpc.Shares.Share.{Share}
use iris_mpc.Shares.VecShare.{VecShare, get_at}
use iris_mpc.Shares.Sharing.{IsSharing}
use iris_mpc.Shares.Sharing.Additive.{IsAdditive}
use iris_mpc.GaloisEngine.{FullGaloisRingIrisCodeShare}
use iris_mpc.GaloisEngine.Shares.{
  Encoded, shares_of, prepared_of, code_dots, mask_dots, code_score, mask_score,
  code_dots-IsAdditive, mask_dots-IsAdditive, prepare, prepare-shares_of,
}
use iris_mpc.Protocol.Platform.{Platform}
use iris_mpc.Protocol.Program.{Session, Program, ◌>>=◌, try}
use iris_mpc.Protocol.Run.{IsReady, Yields}
use iris_mpc.Protocol.Compose.{then-Yields, then_made-Yields}
use iris_mpc.Protocol.Ops.{galois_ring_to_rep3}
use iris_mpc.Protocol.Ops.Rep3.{galois_ring_to_rep3-Yields}
use iris_mpc.Protocol.Compare.{bound_a, bound_b, lift_and_compare_threshold}
use iris_mpc.Protocol.Compare.Correct.{AllAre, below_zero, revealed, revealed-Yields}
use iris_mpc.Protocol.Compare.Lifted.{lift_and_compare_threshold-Yields}
use iris_mpc.Protocol.Distance.{galois_ring_pairwise_distance, galois_ring_is_match}
use iris_mpc.Protocol.Distance.Score.{is_similar, below_zero-is_similar}

-- The parties' numbers for one pair.
abbrev pub additive_dots :
    Trio FullGaloisRingIrisCodeShare → Trio FullGaloisRingIrisCodeShare → List (Trio ℕ)
additive_dots s t = code_dots s t ∷ mask_dots s t ∷ []

abbrev pub scores : Encoded → Encoded → List ℕ
scores x y = code_score x.iris y.iris ∷ mask_score x.iris y.iris ∷ []

pub additive_dots-IsAdditive :
    (x y : Encoded)
    → AllPairs (IsAdditive 16) (additive_dots (shares_of x) (prepared_of y)) (scores x y)
additive_dots-IsAdditive x y = cons (code_dots-IsAdditive x y) (cons (mask_dots-IsAdditive x y) nil)

-- Each party prepares its share of the second iris, and compares it with its share of the first.
abbrev pub matches :
    {P : Platform} {R : Type 0}
    → Trio FullGaloisRingIrisCodeShare
    → Trio FullGaloisRingIrisCodeShare
    → Trio (Program P R Bool)
matches s t = record {
  p0 = (do u ← try (prepare t.p0); galois_ring_is_match ((s.p0, u) ∷ []));
  p1 = (do u ← try (prepare t.p1); galois_ring_is_match ((s.p1, u) ∷ []));
  p2 = (do u ← try (prepare t.p2); galois_ring_is_match ((s.p2, u) ∷ []));
}

two :
    {Q : Trio Share → ℕ → Type 0} {ts : List (Trio Share)} {y z : ℕ}
    → AllPairs Q ts (y ∷ z ∷ [])
    → (u : Trio Share) × (v : Trio Share) × (ts ≡ u ∷ v ∷ []) × Q u y × Q v z
two (cons {a = u} p (cons {a = v} q nil)) = (u, v, refl, p, q)

module _ {P : Platform} (R : Type 0) (ids : Trio Identity) where
  -- What a party does with its shares of the dot products.
  abbrev compare_dots : VecShare → Program P R Bool
  compare_dots rep_dots = do
    code_dot ← try (get_at rep_dots 0)
    mask_dot ← try (get_at rep_dots 1)
    bit ← lift_and_compare_threshold code_dot mask_dot
    revealed R ids bit

  compare_dots-Yields :
      (s : Trio (Session P)) (ts : List (Trio Share)) (c m : ℕ)
      → IsReady ids s
      → AllPairs (IsSharing 16) ts (c ∷ m ∷ [])
      → Yields ids s (map_trio compare_dots (columns ts)) (AllAre (below_zero m bound_a c bound_b))
  unfolding get_at
  compare_dots-Yields s ts c m h hts =
      let (u, v, made, hu, hv) = two hts in
      rw made (
        then-Yields ids _ (record { p0 = revealed R ids; p1 = revealed R ids; p2 = revealed R ids })
          (lift_and_compare_threshold-Yields R ids s u v c m h hu hv)
          λ bit s' h' hbit. revealed-Yields R ids s' bit (below_zero m bound_a c bound_b) h' hbit)

  pub matches-Yields :
      (s : Trio (Session P)) (x y : Encoded)
      → IsReady ids s
      → Yields {R = R} ids s
          (matches (shares_of x) (shares_of y))
          (AllAre (is_similar x.iris y.iris))
  unfolding galois_ring_is_match galois_ring_pairwise_distance
  matches-Yields s x y h =
      let f : Trio (VecShare → Program P R Bool) = record {
        p0 = compare_dots;
        p1 = compare_dots;
        p2 = compare_dots;
      } in
      let e = prepare-shares_of y in
      rw
        (
          ← below_zero-is_similar x.iris y.iris,
          ap (λ t. t.p0) e,
          ap (λ t. t.p1) e,
          ap (λ t. t.p2) e,
        )
        (then_made-Yields ids columns
          (map_trio galois_ring_to_rep3 (columns (additive_dots (shares_of x) (prepared_of y)))) f
          (galois_ring_to_rep3-Yields R ids s (additive_dots (shares_of x) (prepared_of y))
            (scores x y) h (additive_dots-IsAdditive x y))
          λ ts s' h' hts.
            compare_dots-Yields s' ts (code_score x.iris y.iris) (mask_score x.iris y.iris) h' hts)
