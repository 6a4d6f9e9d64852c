-- ===== src/Protocol/Lift/Correct.antt =====
-- `lift` gives shares of the same numbers in 32 bits.
use iris_mpc.Prelude.{
  ℕ, suc, ◌+◌, ◌*◌, ◌/◌, ◌%◌, ◌≡◌, ◌∙◌, refl, ap, [], ◌∷◌, ◌++◌, map, length-tabulate, take,
  tabulate, tabulate-agree, arith,
}
use iris_mpc.Prelude.Bits.{bit_at, to_nat}
use iris_mpc.Id.{PartyId, Trio}
use iris_mpc.Network.Process.{Process}
use iris_mpc.Execution.Role.{Identity}
use iris_mpc.Shares.Share.{Share}
use iris_mpc.Shares.VecShare.{VecShare}
use iris_mpc.Shares.Sharing.{IsSharing}
use iris_mpc.Shares.Sharing.Bits.{bits_of}
use iris_mpc.Shares.TransposePack.U16.{transpose_pack_u64}
use iris_mpc.Shares.TransposePack.Correct.{chunk_count}
use iris_mpc.Shares.TransposePack.Packer.{u16_packer}
use iris_mpc.Protocol.Platform.{Platform}
use iris_mpc.Protocol.Program.{Session, Program}
use iris_mpc.Protocol.Run.{IsReady, Yields, start}
use iris_mpc.Protocol.Compose.{then, then-Yields}
use iris_mpc.Protocol.Pack.Correct.{chunk_columns}
use iris_mpc.Protocol.Adder.{binary_add_3_get_two_carries}
use iris_mpc.Protocol.Adder.Slices.{Words, xor_words, and_words}
use iris_mpc.Protocol.Adder.Summands.{carry_words}
use iris_mpc.Protocol.Adder.Columns.{total_at, two_carries-bits}
use iris_mpc.Protocol.Adder.TwoCarries.{last_carry, binary_add_3_get_two_carries-Yields}
use iris_mpc.Protocol.Extract.Parts.{
  part1, part2, part3, a2b_rows-party0, a2b_rows-party1, a2b_rows-party2,
}
use iris_mpc.Protocol.Extract.Rows.{
  word_rows, components, parts-Summands, transposed0, transposed1, transposed2,
}
use iris_mpc.Protocol.Extract.Bits.{total-components}
use iris_mpc.Protocol.Extract.Correct.{vectors}
use iris_mpc.Protocol.Ops.Rep3.{AreShares}
use iris_mpc.Protocol.Lift.{lift}
use iris_mpc.Protocol.Lift.Bits.{word_bit, first_bits-tabulate}
use iris_mpc.Protocol.Lift.Trios.{component_sum}
use iris_mpc.Protocol.Lift.Subtract.{inject_both, inject_both-Yields}

-- The bits of the words of carries are the carries of the components.
carries_of_sums :
    (k : ℕ) (t : ℕ → Trio Share) (x : ℕ → ℕ) (h : (i : ℕ) → IsSharing 16 (t i) (x i)) (m : ℕ)
    (w : Words)
    → ((j b : ℕ)
        → bit_at (w j) b ≡ bit_at (total_at j b (tabulate 16 (components u16_packer k t x h))) m)
    → take k (bits_of 64 (tabulate (chunk_count 64 k) w))
      ≡ tabulate k (λ i. to_nat (bit_at (component_sum (t i)) m))
carries_of_sums k t x h m w e =
    first_bits-tabulate (chunk_count 64 k) k w (omega arith)
    ∙ tabulate-agree k (word_bit w) (λ i. to_nat (bit_at (component_sum (t i)) m))
        λ i hi.
          let whole : 64 * (i / 64) + i % 64 ≡ i = omega arith in
          ap to_nat (
            e (i / 64) (i % 64)
            ∙ ap (λ n. bit_at n m)
                (total-components u16_packer k t x h (i / 64) (i % 64) (omega arith) (omega arith)
                  (omega arith))
            ∙ ap (λ i. bit_at (component_sum (t i)) m) whole)

abbrev pub lifts : {P : Platform} {R : Type 0} → ℕ → (ℕ → Trio Share) → Trio (Program P R VecShare)
lifts k t = let v = vectors k t in record { p0 = lift v.p0; p1 = lift v.p1; p2 = lift v.p2 }

-- The positions of the numbers: the lowest two, those between, and the highest.
rows_positions :
    (c : ℕ → Trio Words)
    → tabulate 16 c ≡ c 0 ∷ c 1 ∷ (tabulate 13 (λ i. c (suc (suc i))) ++ c 15 ∷ [])
unfolding tabulate
rows_positions c = refl

-- The adder's words are the carries of all 16 positions.
carries-bits :
    (c : ℕ → Trio Words) (j b : ℕ)
    → let d = last_carry (c 0) (c 1) (tabulate 13 (λ i. c (suc (suc i)))) (c 15) in
      (bit_at (xor_words (carry_words (c 15)) d j) b ≡ bit_at (total_at j b (tabulate 16 c)) 16)
      × (bit_at (and_words (carry_words (c 15)) d j) b ≡ bit_at (total_at j b (tabulate 16 c)) 17)
unfolding tabulate
carries-bits c j b = two_carries-bits j b (c 0) (c 1) (c 15) (tabulate 13 (λ i. c (suc (suc i))))

module _ {P : Platform} (R : Type 0) (ids : Trio Identity) (s : Trio (Session P)) where
  module _ (k : ℕ) (t : ℕ → Trio Share) (x : ℕ → ℕ) (h : IsReady ids s)
      (hs : (i : ℕ) → IsSharing 16 (t i) (x i)) where
    -- The adders that the parties run on their parts.
    abbrev part_adders : Trio (Program P R (VecShare × VecShare))
    part_adders =
        let rows = word_rows u16_packer k t x hs in
        let x1 = chunk_columns (map (map part1) rows) in
        let x2 = chunk_columns (map (map part2) rows) in
        let x3 = chunk_columns (map (map part3) rows) in
        record {
          p0 = binary_add_3_get_two_carries x1.p0 x2.p0 x3.p0 k;
          p1 = binary_add_3_get_two_carries x1.p1 x2.p1 x3.p1 k;
          p2 = binary_add_3_get_two_carries x1.p2 x2.p2 x3.p2 k;
        }

    abbrev after_adders : Trio (VecShare × VecShare → Program P R VecShare)
    after_adders =
        let v = vectors k t in
        record {
          p0 = inject_both R ids k v.p0;
          p1 = inject_both R ids k v.p1;
          p2 = inject_both R ids k v.p2;
        }

    -- Up to its adder, a party computes alone.
    starts :
        (f : PartyId → VecShare → Session P → Process P.Bytes R)
        → start (lifts k t) s f ≡ start (then part_adders after_adders) s f
    unfolding lift transpose_pack_u64 binary_add_3_get_two_carries
    starts f =
        let rows = word_rows u16_packer k t x hs in
        rw
          (
            transposed0 u16_packer k t x hs,
            transposed1 u16_packer k t x hs,
            transposed2 u16_packer k t x hs,
            length-tabulate k (λ i. (t i).p0),
            length-tabulate k (λ i. (t i).p1),
            length-tabulate k (λ i. (t i).p2),
            a2b_rows-party0 ids s h.parties rows,
            a2b_rows-party1 ids s h.parties rows,
            a2b_rows-party2 ids s h.parties rows,
          )
          refl

    pub lift-Yields : Yields {R = R} ids s (lifts k t) (AreShares 32 (tabulate k x))
    lift-Yields =
        let c = components u16_packer k t x hs in
        let rows = word_rows u16_packer k t x hs in
        let r = tabulate 13 (λ i. c (suc (suc i))) in
        let adder =
          binary_add_3_get_two_carries-Yields R ids (chunk_count 64 k) k s (map (map part1) rows)
            (map (map part2) rows) (map (map part3) rows) (c 0) (c 1) (c 15) r h
            (rw (rows_positions c) at (parts-Summands u16_packer k t x hs)) in
        let y : Yields {R = R} ids s (then part_adders after_adders) (AreShares 32 (tabulate k x)) =
          then-Yields ids part_adders after_adders adder λ a s' h' good. rw good.made (
            inject_both-Yields R ids k t x hs s' good.us good.vs h'
              (rw (carries_of_sums k t x hs 16 _ (λ j b. (carries-bits c j b).0)) at good.first)
              (rw (carries_of_sums k t x hs 17 _ (λ j b. (carries-bits c j b).1)) at
                good.second)) in
        record {
          value = y.value;
          after = y.after;
          ready = y.ready;
          good = y.good;
          runs = λ f. rw (starts f) (y.runs f);
        }
