-- ===== src/Protocol/Adder/Highest.antt =====
-- `binary_add_3_get_msb` computes the highest position of the sum of three numbers.
use iris_mpc.Prelude.{
  ◌≡◌, refl, sym, ◌∙◌, fun_ext, ℕ, List, [], ◌∷◌, ◌++◌, map, map-snoc, length, length-map, zip_with,
  zip_with-map,
}
use iris_mpc.Id.{Trio, zip_trio}
use iris_mpc.Execution.Role.{Identity}
use iris_mpc.Shares.Share
use iris_mpc.Shares.Share.{Share}
use iris_mpc.Shares.VecShare.{VecShare}
use iris_mpc.Protocol.Platform.{Platform}
use iris_mpc.Protocol.Program.{Session, Program}
use iris_mpc.Protocol.Run.{IsReady, Yields}
use iris_mpc.Protocol.Compose.{then_made-Yields}
use iris_mpc.Protocol.Pack.{transposed_pack_xor_assign, transposed_pack_and}
use iris_mpc.Protocol.Pack.Correct.{chunk_columns}
use iris_mpc.Protocol.Adder.{msb_of_sum, binary_add_3_get_msb}
use iris_mpc.Protocol.Adder.Slices.{Words, xor_words, and_words, AreSlices, xor_trios}
use iris_mpc.Protocol.Adder.Rows.{
  Rows, xor-Rows, pop-snoc, AllPairs-snoc, transposed_pack_xor-party,
  transposed_pack_xor_assign-party, transposed_pack_and-Rows,
}
use iris_mpc.Protocol.Adder.Summands.{
  sum_words, carry_words, Summands, second_third-Rows, first_third-Rows, sums-Rows,
}
use iris_mpc.Protocol.Adder.Msb.{top_words, msb_of_sum-Yields}

-- One party's part: the exclusive ors, the AND of all rows but the last, and the rest.
module _ {P : Platform} {R : Type 0} {n : ℕ} {us1 us2 us3 : List (List (Trio Share))}
    {ts : List (Trio Words)} (h : Summands n us1 us2 us3 ts)
    (front13 front23 front3 : List (List (Trio Share))) (last13 last23 last3 : List (Trio Share))
    (e13 : zip_with xor_trios us1 us3 ≡ front13 ++ last13 ∷ [])
    (e23 : zip_with xor_trios us2 us3 ≡ front23 ++ last23 ∷ []) (e3 : us3 ≡ front3 ++ last3 ∷ [])
    (q : Trio Share → Share)
    (split : (u v : Trio Share) → q (zip_trio Share.xor u v) ≡ Share.xor (q u) (q v)) where
  add_3-party :
      binary_add_3_get_msb {P = P} {R = R} (map (map q) us1) (map (map q) us2) (map (map q) us3)
      ≡ (λ s k. transposed_pack_and (map (map q) front13) (map (map q) front23) s (λ c s'.
          msb_of_sum
            (map (map q) (zip_with xor_trios us1 (zip_with xor_trios us2 us3)))
            (transposed_pack_xor_assign c (map (map q) front3))
            s'
            k))
  unfolding binary_add_3_get_msb
  add_3-party =
      let same12 : length (map (λ (t : Trio Words). t.p0) ts)
          ≡ length (map (λ (t : Trio Words). t.p2) ts) =
        length-map (λ t. t.p0) ts ∙ sym (length-map (λ t. t.p2) ts) in
      let same23 : length (map (λ (t : Trio Words). t.p1) ts)
          ≡ length (map (λ (t : Trio Words). t.p2) ts) =
        length-map (λ t. t.p1) ts ∙ sym (length-map (λ t. t.p2) ts) in
      fun_ext λ s. fun_ext λ k.
        rw
          (
            transposed_pack_xor_assign-party q split us2 us3 h.second h.third same23,
            transposed_pack_xor_assign-party q split us1 us3 h.first h.third same12,
            transposed_pack_xor-party q split us1 (zip_with xor_trios us2 us3),
            e13,
            pop-snoc (map q) front13 last13,
            e23,
            pop-snoc (map q) front23 last23,
            e3,
            pop-snoc (map q) front3 last3,
          )
          refl

module _ {P : Platform} (R : Type 0) (ids : Trio Identity) (n : ℕ) where
  pub binary_add_3_get_msb-Yields :
      (s : Trio (Session P)) (us1 us2 us3 : List (List (Trio Share))) (t0 t1 t u : Trio Words)
      (r : List (Trio Words))
      → IsReady ids s
      → Summands n us1 us2 us3 ((t0 ∷ t1 ∷ (r ++ t ∷ [])) ++ u ∷ [])
      → Yields {R = R} ids s
          (record {
            p0 =
                binary_add_3_get_msb
                  (chunk_columns us1).p0
                  (chunk_columns us2).p0
                  (chunk_columns us3).p0;
            p1 =
                binary_add_3_get_msb
                  (chunk_columns us1).p1
                  (chunk_columns us2).p1
                  (chunk_columns us3).p1;
            p2 =
                binary_add_3_get_msb
                  (chunk_columns us1).p2
                  (chunk_columns us2).p2
                  (chunk_columns us3).p2;
          })
          (AreSlices n (
            top_words
              (sum_words t1)
              (sum_words u)
              (carry_words t0)
              (carry_words t)
              (map sum_words (r ++ t ∷ []))
              (map carry_words (t1 ∷ r))))
  binary_add_3_get_msb-Yields s us1 us2 us3 t0 t1 t u r h hs =
      let ts : List (Trio Words) = t0 ∷ t1 ∷ (r ++ t ∷ []) in
      let x13 : Trio Words → Words = λ t. xor_words t.p0 t.p2 in
      let x23 : Trio Words → Words = λ t. xor_words t.p1 t.p2 in
      let (front13, last13, e13, h13, _) =
        AllPairs-snoc (zip_with xor_trios us1 us3) (map x13 ts) (x13 u)
          (rw (map-snoc x13 ts u) at (first_third-Rows hs)) in
      let (front23, last23, e23, h23, _) =
        AllPairs-snoc (zip_with xor_trios us2 us3) (map x23 ts) (x23 u)
          (rw (map-snoc x23 ts u) at (second_third-Rows hs)) in
      let (front3, last3, e3, h3, _) =
        AllPairs-snoc us3 (map (λ t. t.p2) ts) u.p2
          (rw (map-snoc (λ (t : Trio Words). t.p2) ts u) at hs.third) in
      let sums = zip_with xor_trios us1 (zip_with xor_trios us2 us3) in
      let rest : Trio (List VecShare → Program P R VecShare) = record {
        p0 = λ c s k.
            msb_of_sum (map (map (λ t. t.p0)) sums)
              (transposed_pack_xor_assign c (map (map (λ t. t.p0)) front3)) s k;
        p1 = λ c s k.
            msb_of_sum (map (map (λ t. t.p1)) sums)
              (transposed_pack_xor_assign c (map (map (λ t. t.p1)) front3)) s k;
        p2 = λ c s k.
            msb_of_sum (map (map (λ t. t.p2)) sums)
              (transposed_pack_xor_assign c (map (map (λ t. t.p2)) front3)) s k;
      } in
      rw
        (
          add_3-party {P = P} {R = R} hs front13 front23 front3 last13 last23 last3 e13 e23 e3
              (λ t. t.p0) (λ u v. refl),
          add_3-party {P = P} {R = R} hs front13 front23 front3 last13 last23 last3 e13 e23 e3
              (λ t. t.p1) (λ u v. refl),
          add_3-party {P = P} {R = R} hs front13 front23 front3 last13 last23 last3 e13 e23 e3
              (λ t. t.p2) (λ u v. refl),
        )
        (then_made-Yields ids chunk_columns _ rest
          (transposed_pack_and-Rows R ids s n front13 front23 (map x13 ts) (map x23 ts) h h13 h23
            (length-map x13 ts ∙ sym (length-map x23 ts)))
          λ cs s' h' hcs.
            let ands : Trio Words → Words = λ t. and_words (x13 t) (x23 t) in
            let carries : Rows n cs (map ands ts) = rw (zip_with-map and_words x13 x23 ts) at hcs in
            let even : length (map ands ts) ≡ length (map (λ (t : Trio Words). t.p2) ts) =
              length-map ands ts ∙ sym (length-map (λ (t : Trio Words). t.p2) ts) in
            let both : Rows n (zip_with xor_trios cs front3) (map carry_words ts) =
              rw (zip_with-map xor_words ands (λ (t : Trio Words). t.p2) ts) at
                (xor-Rows carries h3) in
            rw
              (
                transposed_pack_xor_assign-party (λ t. t.p0) (λ u v. refl) cs front3 carries h3
                    even,
                transposed_pack_xor_assign-party (λ t. t.p1) (λ u v. refl) cs front3 carries h3
                    even,
                transposed_pack_xor_assign-party (λ t. t.p2) (λ u v. refl) cs front3 carries h3
                    even,
              )
              (msb_of_sum-Yields R ids n s' {as' = sums} {bs = zip_with xor_trios cs front3}
                (sum_words t0) (sum_words t1) (sum_words u) (carry_words t0) (carry_words t)
                (map sum_words (r ++ t ∷ [])) (map carry_words (t1 ∷ r)) h'
                (rw (map-snoc sum_words (r ++ t ∷ []) u) at (sums-Rows hs))
                (rw (map-snoc carry_words r t) at both)))
