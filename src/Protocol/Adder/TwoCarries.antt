-- ===== src/Protocol/Adder/TwoCarries.antt =====
-- `binary_add_3_get_two_carries` computes the two positions above the three numbers.
use iris_mpc.Prelude.{
  ◌≡◌, sym, ◌∙◌, fun_ext, ℕ, List, [], ◌∷◌, ◌++◌, map, map-snoc, length, length-map, zip_with,
  zip_with-map, refl,
}
use iris_mpc.Id.{Trio, zip_trio}
use iris_mpc.Execution.Role.{Identity}
use iris_mpc.Shares.Share
use iris_mpc.Shares.Share.{Share}
use iris_mpc.Shares.VecShare.{VecShare}
use iris_mpc.Protocol.Platform.{Platform}
use iris_mpc.Protocol.Program.{Session, Program}
use iris_mpc.Protocol.Run.{IsReady, Yields}
use iris_mpc.Protocol.Compose.{then_made-Yields}
use iris_mpc.Protocol.Pack.{transposed_pack_xor_assign, transposed_pack_and}
use iris_mpc.Protocol.Pack.Correct.{chunk_columns}
use iris_mpc.Protocol.Adder.{carries_of_sum, binary_add_3_get_two_carries}
use iris_mpc.Protocol.Adder.Circuit.{ripple}
use iris_mpc.Protocol.Adder.Slices.{Words, xor_words, and_words, xor_trios}
use iris_mpc.Protocol.Adder.Rows.{
  Rows, xor-Rows, transposed_pack_xor-party, transposed_pack_xor_assign-party,
  transposed_pack_and-Rows,
}
use iris_mpc.Protocol.Adder.Summands.{
  sum_words, carry_words, Summands, second_third-Rows, first_third-Rows, sums-Rows,
}
use iris_mpc.Protocol.Adder.Carries.{AreCarries, carries_of_sum-Yields}

-- One party's part: the exclusive ors, the AND of all rows, and the rest.
module _ {P : Platform} {R : Type 0} {n : ℕ} {us1 us2 us3 : List (List (Trio Share))}
    {ts : List (Trio Words)} (h : Summands n us1 us2 us3 ts) (len : ℕ) (q : Trio Share → Share)
    (split : (u v : Trio Share) → q (zip_trio Share.xor u v) ≡ Share.xor (q u) (q v)) where
  add_3_carries-party :
      binary_add_3_get_two_carries {P = P} {R = R}
        (map (map q) us1)
        (map (map q) us2)
        (map (map q) us3)
        len
      ≡ (λ s k.
          transposed_pack_and
            (map (map q) (zip_with xor_trios us1 us3))
            (map (map q) (zip_with xor_trios us2 us3))
            s
            (λ c s'.
              carries_of_sum
                (map (map q) (zip_with xor_trios us1 (zip_with xor_trios us2 us3)))
                (transposed_pack_xor_assign c (map (map q) us3))
                len
                s'
                k))
  unfolding binary_add_3_get_two_carries
  add_3_carries-party =
      let same13 : length (map (λ (t : Trio Words). t.p0) ts)
          ≡ length (map (λ (t : Trio Words). t.p2) ts) =
        length-map (λ t. t.p0) ts ∙ sym (length-map (λ t. t.p2) ts) in
      let same23 : length (map (λ (t : Trio Words). t.p1) ts)
          ≡ length (map (λ (t : Trio Words). t.p2) ts) =
        length-map (λ t. t.p1) ts ∙ sym (length-map (λ t. t.p2) ts) in
      fun_ext λ s. fun_ext λ k.
        rw
          (
            transposed_pack_xor_assign-party q split us2 us3 h.second h.third same23,
            transposed_pack_xor_assign-party q split us1 us3 h.first h.third same13,
            transposed_pack_xor-party q split us1 (zip_with xor_trios us2 us3),
          )
          refl

-- The words in the last row of the adder's loop.
abbrev pub last_carry : Trio Words → Trio Words → List (Trio Words) → Trio Words → Words
last_carry t0 t1 r u =
    ripple xor_words and_words (and_words (sum_words t1) (carry_words t0))
      (map sum_words (r ++ u ∷ [])) (map carry_words (t1 ∷ r))

module _ {P : Platform} (R : Type 0) (ids : Trio Identity) (n len : ℕ) where
  pub binary_add_3_get_two_carries-Yields :
      (s : Trio (Session P)) (us1 us2 us3 : List (List (Trio Share))) (t0 t1 u : Trio Words)
      (r : List (Trio Words))
      → IsReady ids s
      → Summands n us1 us2 us3 (t0 ∷ t1 ∷ (r ++ u ∷ []))
      → Yields {R = R} ids s
          (record {
            p0 =
                binary_add_3_get_two_carries
                  (chunk_columns us1).p0
                  (chunk_columns us2).p0
                  (chunk_columns us3).p0
                  len;
            p1 =
                binary_add_3_get_two_carries
                  (chunk_columns us1).p1
                  (chunk_columns us2).p1
                  (chunk_columns us3).p1
                  len;
            p2 =
                binary_add_3_get_two_carries
                  (chunk_columns us1).p2
                  (chunk_columns us2).p2
                  (chunk_columns us3).p2
                  len;
          })
          (AreCarries n len
            (xor_words (carry_words u) (last_carry t0 t1 r u))
            (and_words (carry_words u) (last_carry t0 t1 r u)))
  binary_add_3_get_two_carries-Yields s us1 us2 us3 t0 t1 u r h hs =
      let ts : List (Trio Words) = t0 ∷ t1 ∷ (r ++ u ∷ []) in
      let x13 : Trio Words → Words = λ t. xor_words t.p0 t.p2 in
      let x23 : Trio Words → Words = λ t. xor_words t.p1 t.p2 in
      let ands : Trio Words → Words = λ t. and_words (x13 t) (x23 t) in
      let sums = zip_with xor_trios us1 (zip_with xor_trios us2 us3) in
      let rest : Trio (List VecShare → Program P R (VecShare × VecShare)) = record {
        p0 = λ c s k.
            carries_of_sum (map (map (λ t. t.p0)) sums)
              (transposed_pack_xor_assign c (map (map (λ t. t.p0)) us3)) len s k;
        p1 = λ c s k.
            carries_of_sum (map (map (λ t. t.p1)) sums)
              (transposed_pack_xor_assign c (map (map (λ t. t.p1)) us3)) len s k;
        p2 = λ c s k.
            carries_of_sum (map (map (λ t. t.p2)) sums)
              (transposed_pack_xor_assign c (map (map (λ t. t.p2)) us3)) len s k;
      } in
      rw
        (
          add_3_carries-party {P = P} {R = R} hs len (λ t. t.p0) (λ u v. refl),
          add_3_carries-party {P = P} {R = R} hs len (λ t. t.p1) (λ u v. refl),
          add_3_carries-party {P = P} {R = R} hs len (λ t. t.p2) (λ u v. refl),
        )
        (then_made-Yields ids chunk_columns _ rest
          (transposed_pack_and-Rows R ids s n (zip_with xor_trios us1 us3)
            (zip_with xor_trios us2 us3) (map x13 ts) (map x23 ts) h (first_third-Rows hs)
            (second_third-Rows hs) (length-map x13 ts ∙ sym (length-map x23 ts)))
          λ cs s' h' hcs.
            let carries : Rows n cs (map ands ts) = rw (zip_with-map and_words x13 x23 ts) at hcs in
            let even : length (map ands ts) ≡ length (map (λ (t : Trio Words). t.p2) ts) =
              length-map ands ts ∙ sym (length-map (λ (t : Trio Words). t.p2) ts) in
            let both : Rows n (zip_with xor_trios cs us3) (map carry_words ts) =
              rw (zip_with-map xor_words ands (λ (t : Trio Words). t.p2) ts) at
                (xor-Rows carries hs.third) in
            rw
              (
                transposed_pack_xor_assign-party (λ t. t.p0) (λ u v. refl) cs us3 carries hs.third
                    even,
                transposed_pack_xor_assign-party (λ t. t.p1) (λ u v. refl) cs us3 carries hs.third
                    even,
                transposed_pack_xor_assign-party (λ t. t.p2) (λ u v. refl) cs us3 carries hs.third
                    even,
              )
              (carries_of_sum-Yields R ids n len s' {as' = sums} {bs = zip_with xor_trios cs us3}
                (sum_words t0) (sum_words t1) (carry_words t0) (carry_words u)
                (map sum_words (r ++ u ∷ [])) (map carry_words (t1 ∷ r)) h' (sums-Rows hs)
                (rw (map-snoc carry_words r u) at both)))
