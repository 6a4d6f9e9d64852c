-- ===== src/Protocol/Extract/Correct.antt =====
-- `extract_msb_u32` gives binary shares of the most significant bits.
use iris_mpc.Prelude.{ℕ, suc, ◌≡◌, refl, List, [], ◌∷◌, ◌++◌, map, tabulate}
use iris_mpc.Id.{PartyId, Trio}
use iris_mpc.Network.Process.{Process}
use iris_mpc.Execution.Role.{Identity}
use iris_mpc.Shares.Share.{Share}
use iris_mpc.Shares.VecShare.{VecShare}
use iris_mpc.Shares.Sharing.{IsSharing}
use iris_mpc.Shares.TransposePack.Correct.{chunk_count}
use iris_mpc.Shares.TransposePack.Packer.{u32_packer}
use iris_mpc.Protocol.Platform.{Platform}
use iris_mpc.Protocol.Program.{Session, Program}
use iris_mpc.Protocol.Run.{IsReady, Yields, start}
use iris_mpc.Protocol.Pack.Correct.{chunk_columns}
use iris_mpc.Protocol.Adder.{binary_add_3_get_msb}
use iris_mpc.Protocol.Adder.Slices.{Words, AreSlices}
use iris_mpc.Protocol.Adder.Summands.{sum_words, carry_words}
use iris_mpc.Protocol.Adder.Msb.{top_words}
use iris_mpc.Protocol.Adder.Highest.{binary_add_3_get_msb-Yields}
use iris_mpc.Protocol.Extract.{extract_msb_u32}
use iris_mpc.Protocol.Extract.Parts.{
  part1, part2, part3, a2b_rows-party0, a2b_rows-party1, a2b_rows-party2,
}
use iris_mpc.Protocol.Extract.Rows.{
  word_rows, components, parts-Summands, transposed0, transposed1, transposed2,
}

-- The parties' vectors of `k` shares.
abbrev pub vectors : ℕ → (ℕ → Trio Share) → Trio VecShare
vectors k t = record {
  p0 = tabulate k (λ i. (t i).p0);
  p1 = tabulate k (λ i. (t i).p1);
  p2 = tabulate k (λ i. (t i).p2);
}

abbrev pub extractions :
    {P : Platform} {R : Type 0} → ℕ → (ℕ → Trio Share) → Trio (Program P R VecShare)
extractions k t =
    let v = vectors k t in
    record {
      p0 = extract_msb_u32 32 v.p0;
      p1 = extract_msb_u32 32 v.p1;
      p2 = extract_msb_u32 32 v.p2;
    }

-- The positions of the numbers: the lowest two, those between, and the highest two.
rows_positions :
    (c : ℕ → Trio Words)
    → tabulate 32 c ≡ (c 0 ∷ c 1 ∷ (tabulate 28 (λ i. c (suc (suc i))) ++ c 30 ∷ [])) ++ c 31 ∷ []
unfolding tabulate
rows_positions c = refl

module _ {P : Platform} (R : Type 0) (ids : Trio Identity) (s : Trio (Session P)) where
  -- The adders that the parties run on their parts.
  abbrev part_adders : List (List (Trio Share)) → Trio (Program P R VecShare)
  part_adders rows =
      let x1 = chunk_columns (map (map part1) rows) in
      let x2 = chunk_columns (map (map part2) rows) in
      let x3 = chunk_columns (map (map part3) rows) in
      record {
        p0 = binary_add_3_get_msb x1.p0 x2.p0 x3.p0;
        p1 = binary_add_3_get_msb x1.p1 x2.p1 x3.p1;
        p2 = binary_add_3_get_msb x1.p2 x2.p2 x3.p2;
      }

  module _ (k : ℕ) (t : ℕ → Trio Share) (x : ℕ → ℕ) (h : IsReady ids s)
      (hs : (i : ℕ) → IsSharing 32 (t i) (x i)) where
    -- Up to its adder, a party computes alone.
    starts :
        (f : PartyId → VecShare → Session P → Process P.Bytes R)
        → start (extractions k t) s f ≡ start (part_adders (word_rows u32_packer k t x hs)) s f
    unfolding extract_msb_u32
    starts f =
        let rows = word_rows u32_packer k t x hs in
        rw
          (
            transposed0 u32_packer k t x hs,
            transposed1 u32_packer k t x hs,
            transposed2 u32_packer k t x hs,
            a2b_rows-party0 ids s h.parties rows,
            a2b_rows-party1 ids s h.parties rows,
            a2b_rows-party2 ids s h.parties rows,
          )
          refl

    pub extract_msb_u32-Yields :
        let c = components u32_packer k t x hs in
        Yields {R = R} ids s (extractions k t) (
          AreSlices (chunk_count 64 k) (
            top_words
              (sum_words (c 1))
              (sum_words (c 31))
              (carry_words (c 0))
              (carry_words (c 30))
              (map sum_words (tabulate 28 (λ i. c (suc (suc i))) ++ c 30 ∷ []))
              (map carry_words (c 1 ∷ tabulate 28 (λ i. c (suc (suc i)))))))
    extract_msb_u32-Yields =
        let c = components u32_packer k t x hs in
        let rows = word_rows u32_packer k t x hs in
        let y =
          binary_add_3_get_msb-Yields R ids (chunk_count 64 k) s (map (map part1) rows)
            (map (map part2) rows) (map (map part3) rows) (c 0) (c 1) (c 30) (c 31)
            (tabulate 28 (λ i. c (suc (suc i)))) h
            (rw (rows_positions c) at (parts-Summands u32_packer k t x hs)) in
        record {
          value = y.value;
          after = y.after;
          ready = y.ready;
          good = y.good;
          runs = λ f. rw (starts f) (y.runs f);
        }
