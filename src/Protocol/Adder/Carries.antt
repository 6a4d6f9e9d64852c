-- ===== src/Protocol/Adder/Carries.antt =====
-- The rest of `binary_add_3_get_two_carries`, from the rows of sums and of carries on.
use iris_mpc.Prelude.{
  ◌≡◌, refl, sym, ◌∙◌, fun_ext, ℕ, List, [], ◌∷◌, ◌++◌, map, length, take, tabulate, AllPairs, cons,
}
use iris_mpc.Id.{Trio, map_trio, zip_trio, columns}
use iris_mpc.Execution.Role.{Identity}
use iris_mpc.Shares.Share
use iris_mpc.Shares.Share.{Share}
use iris_mpc.Shares.VecShare.{VecShare, xor_assign, convert_to_bits, truncate}
use iris_mpc.Shares.Sharing.{IsXorSharing}
use iris_mpc.Shares.Sharing.Bits.{
  bits_of, bit_trios, bit_share, bit_trios-IsXorSharing, first_bits-party, take-AllPairs,
}
use iris_mpc.Protocol.Platform.{Platform}
use iris_mpc.Protocol.Program.{Session, Program, pure}
use iris_mpc.Protocol.Run.{IsReady, Yields}
use iris_mpc.Protocol.Compose.{pure-Yields, then_made-Yields}
use iris_mpc.Protocol.And.{and_many}
use iris_mpc.Protocol.Pack.Correct.{chunk_columns}
use iris_mpc.Protocol.Adder.{ripple_carry, carries_of_sum}
use iris_mpc.Protocol.Adder.Circuit.{ripple}
use iris_mpc.Protocol.Adder.Slices.{
  Words, xor_words, and_words, Slice, Slice-length, xor_trios, xor-Slice, xor_assign-party,
  and_many-Slice,
}
use iris_mpc.Protocol.Adder.Rows.{Rows, pop-snoc, AllPairs-snoc}
use iris_mpc.Protocol.Adder.Ripple.{ripples, ripple_carry-Yields}

-- Each party's part of two vectors of shares.
abbrev pub pair_columns : List (Trio Share) → List (Trio Share) → Trio (VecShare × VecShare)
pair_columns us vs =
    let u = columns us in
    let v = columns vs in record { p0 = (u.p0, v.p0); p1 = (u.p1, v.p1); p2 = (u.p2, v.p2) }

-- The parties' two vectors are binary shares of the first `len` bits of the words `low` and `high`.
pub record AreCarries (n len : ℕ) (low high : Words) (v : Trio (VecShare × VecShare)) : Type 0 where
  pub us : List (Trio Share)
  pub vs : List (Trio Share)
  pub made : v ≡ pair_columns us vs
  pub first : AllPairs (IsXorSharing 1) us (take len (bits_of 64 (tabulate n low)))
  pub second : AllPairs (IsXorSharing 1) vs (take len (bits_of 64 (tabulate n high)))

-- One party's part: an AND, the loop, and another AND.
carries_of_sum-party :
    {P : Platform} {R : Type 0} (q : Trio Share → Share) (u0 u1 v0 vl : List (Trio Share))
    (us vs : List (List (Trio Share))) (len : ℕ)
    → carries_of_sum {P = P} {R = R}
        (map (map q) (u0 ∷ u1 ∷ us))
        (map (map q) (v0 ∷ (vs ++ vl ∷ [])))
        len
      ≡ (λ s k. and_many (map q u1) (map q v0) s (λ c s'.
          ripple_carry c (map (map q) us) (map (map q) vs) s' (λ c' s''.
            and_many (map q vl) c' s'' (λ res s3.
              k
                (
                  truncate (convert_to_bits 64 (xor_assign (map q vl) c')) len,
                  truncate (convert_to_bits 64 res) len,
                )
                s3))))
unfolding carries_of_sum
carries_of_sum-party q u0 u1 v0 vl us vs len =
    fun_ext λ s. fun_ext λ k. rw (pop-snoc (map q) (v0 ∷ vs) vl) refl

module _ {P : Platform} {R : Type 0} (len : ℕ) where
  -- What is left for one party after the last AND, after the loop and after the first AND.
  abbrev outputs : VecShare → VecShare → VecShare → Program P R (VecShare × VecShare)
  outputs top c res s k =
      k
        (
          truncate (convert_to_bits 64 (xor_assign top c)) len,
          truncate (convert_to_bits 64 res) len,
        )
        s

  abbrev last_and : VecShare → VecShare → Program P R (VecShare × VecShare)
  last_and top c s k = and_many top c s (λ res s'. outputs top c res s' k)

  abbrev loop_and :
      List VecShare → List VecShare → VecShare → VecShare → Program P R (VecShare × VecShare)
  loop_and as' bs top c s k = ripple_carry c as' bs s (λ c' s'. last_and top c' s' k)

  outputs-party :
      (q : Trio Share → Share)
      (on_xor : (u v : Trio Share) → q (zip_trio Share.xor u v) ≡ Share.xor (q u) (q v))
      (on_bit : (i : ℕ) (t : Trio Share) → bit_share i (q t) ≡ q (map_trio (bit_share i) t))
      (us cs rs : List (Trio Share))
      → length us ≡ length cs
      → outputs (map q us) (map q cs) (map q rs)
        ≡ pure
            (map q (take len (bit_trios 64 (xor_trios us cs))), map q (take len (bit_trios 64 rs)))
  outputs-party q on_xor on_bit us cs rs e = fun_ext λ s. fun_ext λ k.
      rw
        (
          xor_assign-party q on_xor us cs e,
          first_bits-party q on_bit 64 len (xor_trios us cs),
          first_bits-party q on_bit 64 len rs,
        )
        refl

module _ {P : Platform} (R : Type 0) (ids : Trio Identity) (n len : ℕ) where
  outputs-Yields :
      (s : Trio (Session P)) (us cs rs : List (Trio Share)) (f g h : Words)
      → IsReady ids s
      → Slice n us f
      → Slice n cs g
      → Slice n rs h
      → let u = columns us in
        let c = columns cs in
        let r = columns rs in
        Yields {R = R} ids s
          (record {
            p0 = outputs len u.p0 c.p0 r.p0;
            p1 = outputs len u.p1 c.p1 r.p1;
            p2 = outputs len u.p2 c.p2 r.p2;
          })
          (AreCarries n len (xor_words f g) h)
  outputs-Yields s us cs rs f g h ready hus hcs hrs =
      let low = take len (bit_trios 64 (xor_trios us cs)) in
      let high = take len (bit_trios 64 rs) in
      let e = Slice-length hus ∙ sym (Slice-length hcs) in
      rw
        (
          outputs-party {P = P} {R = R} len (λ t. t.p0) (λ u v. refl) (λ i t. refl) us cs rs e,
          outputs-party {P = P} {R = R} len (λ t. t.p1) (λ u v. refl) (λ i t. refl) us cs rs e,
          outputs-party {P = P} {R = R} len (λ t. t.p2) (λ u v. refl) (λ i t. refl) us cs rs e,
        )
        (pure-Yields ids (pair_columns low high) ready (record {
          us = low;
          vs = high;
          made = refl;
          first = take-AllPairs len (bit_trios-IsXorSharing 64 (xor-Slice hus hcs).pairs);
          second = take-AllPairs len (bit_trios-IsXorSharing 64 hrs.pairs);
        }))

  pub carries_of_sum-Yields :
      (s : Trio (Session P)) {as' bs : List (List (Trio Share))} (f0 f1 g0 gl : Words)
      (fs gs : List Words)
      → IsReady ids s
      → Rows n as' (f0 ∷ f1 ∷ fs)
      → Rows n bs (g0 ∷ (gs ++ gl ∷ []))
      → let a = chunk_columns as' in
        let b = chunk_columns bs in
        let d = ripple xor_words and_words (and_words f1 g0) fs gs in
        Yields {R = R} ids s
          (record {
            p0 = carries_of_sum a.p0 b.p0 len;
            p1 = carries_of_sum a.p1 b.p1 len;
            p2 = carries_of_sum a.p2 b.p2 len;
          })
          (AreCarries n len (xor_words gl d) (and_words gl d))
  carries_of_sum-Yields s f0 f1 g0 gl fs gs h (cons {a = u0} h0 (cons {a = u1} {xs = us} h1 hus))
        (cons {a = v0} {xs = bs} k0 hb) =
      let (vs, vl, ev, hvs, hvl) = AllPairs-snoc bs gs gl hb in
      let after_and : Trio (VecShare → Program P R (VecShare × VecShare)) = record {
        p0 = loop_and len (chunk_columns us).p0 (chunk_columns vs).p0 (columns vl).p0;
        p1 = loop_and len (chunk_columns us).p1 (chunk_columns vs).p1 (columns vl).p1;
        p2 = loop_and len (chunk_columns us).p2 (chunk_columns vs).p2 (columns vl).p2;
      } in
      let after_loop : Trio (VecShare → Program P R (VecShare × VecShare)) = record {
        p0 = last_and len (columns vl).p0;
        p1 = last_and len (columns vl).p1;
        p2 = last_and len (columns vl).p2;
      } in
      rw
        (
          ev,
          carries_of_sum-party {P = P} {R = R} (λ t. t.p0) u0 u1 v0 vl us vs len,
          carries_of_sum-party {P = P} {R = R} (λ t. t.p1) u0 u1 v0 vl us vs len,
          carries_of_sum-party {P = P} {R = R} (λ t. t.p2) u0 u1 v0 vl us vs len,
        )
        (then_made-Yields ids columns _ after_and (and_many-Slice R ids s n u1 v0 f1 g0 h h1 k0)
          λ cs s' h' hcs.
            then_made-Yields ids columns (ripples cs us vs) after_loop
              (ripple_carry-Yields R ids n s' cs (and_words f1 g0) h' hcs hus hvs)
              λ ds s'' h'' hds.
                let d = ripple xor_words and_words (and_words f1 g0) fs gs in
                let rest : Trio (VecShare → Program P R (VecShare × VecShare)) = record {
                  p0 = outputs len (columns vl).p0 (columns ds).p0;
                  p1 = outputs len (columns vl).p1 (columns ds).p1;
                  p2 = outputs len (columns vl).p2 (columns ds).p2;
                } in
                then_made-Yields ids columns _ rest
                  (and_many-Slice R ids s'' n vl ds gl d h'' hvl hds)
                  λ rs s3 h3 hrs. outputs-Yields s3 vl ds rs gl d (and_words gl d) h3 hvl hds hrs)
