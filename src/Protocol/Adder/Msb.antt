-- ===== src/Protocol/Adder/Msb.antt =====
-- `binary_add_3_get_msb` computes the highest position of the sum.
use iris_mpc.Prelude.{◌≡◌, refl, fun_ext, ℕ, List, [], ◌∷◌, ◌++◌, map, cons}
use iris_mpc.Id.{Trio, zip_trio, columns}
use iris_mpc.Execution.Role.{Identity}
use iris_mpc.Shares.Share.{Share}
use iris_mpc.Shares.VecShare.{VecShare, xor_assign}
use iris_mpc.Protocol.Platform.{Platform}
use iris_mpc.Protocol.Program.{Session, Program}
use iris_mpc.Protocol.Run.{IsReady, Yields}
use iris_mpc.Protocol.Compose.{pure-Yields, then_made-Yields}
use iris_mpc.Protocol.And.{and_many}
use iris_mpc.Protocol.Pack.Correct.{chunk_columns}
use iris_mpc.Protocol.Adder.{ripple_carry, msb_of_sum}
use iris_mpc.Protocol.Adder.Circuit.{ripple}
use iris_mpc.Protocol.Adder.Slices.{
  Words, xor_words, and_words, AreSlices, xor_trios, xor-Slice, and_many-Slice,
}
use iris_mpc.Protocol.Adder.Rows.{Rows, pop-snoc, AllPairs-snoc}
use iris_mpc.Protocol.Adder.Ripple.{ripples, xor_assign-columns, ripple_carry-Yields}

-- One party's part after the carries: one AND, the loop, and the last row.
msb_of_sum-party :
    {P : Platform} {R : Type 0} (q : Trio Share → Share) (u0 u1 ul v0 vl : List (Trio Share))
    (us vs : List (List (Trio Share)))
    → msb_of_sum {P = P} {R = R}
        (map (map q) (u0 ∷ u1 ∷ (us ++ ul ∷ [])))
        (map (map q) (v0 ∷ (vs ++ vl ∷ [])))
      ≡ (λ s k. and_many (map q u1) (map q v0) s (λ c s'.
          ripple_carry c
            (map (map q) us)
            (map (map q) vs)
            s'
            (λ c' s''. k (xor_assign (xor_assign (map q ul) (map q vl)) c') s'')))
unfolding msb_of_sum
msb_of_sum-party q u0 u1 ul v0 vl us vs =
    fun_ext
      λ s. fun_ext λ k. rw (pop-snoc (map q) (u0 ∷ u1 ∷ us) ul, pop-snoc (map q) (v0 ∷ vs) vl) refl

-- What the rows of sums and of carries give.
abbrev pub top_words : Words → Words → Words → Words → List Words → List Words → Words
top_words f1 fl g0 gl fs gs =
    xor_words (xor_words fl gl) (ripple xor_words and_words (and_words f1 g0) fs gs)

module _ {P : Platform} (R : Type 0) (ids : Trio Identity) (n : ℕ) where
  pub msb_of_sum-Yields :
      (s : Trio (Session P)) {as' bs : List (List (Trio Share))} (f0 f1 fl g0 gl : Words)
      (fs gs : List Words)
      → IsReady ids s
      → Rows n as' (f0 ∷ f1 ∷ (fs ++ fl ∷ []))
      → Rows n bs (g0 ∷ (gs ++ gl ∷ []))
      → Yields {R = R} ids s
          (zip_trio msb_of_sum (chunk_columns as') (chunk_columns bs))
          (AreSlices n (top_words f1 fl g0 gl fs gs))
  msb_of_sum-Yields s f0 f1 fl g0 gl fs gs h (cons {a = u0} h0 (cons {a = u1} {xs = as'} h1 ha))
        (cons {a = v0} {xs = bs} k0 hb) =
      let (us, ul, eu, hus, hul) = AllPairs-snoc as' fs fl ha in
      let (vs, vl, ev, hvs, hvl) = AllPairs-snoc bs gs gl hb in
      let after_and : Trio (VecShare → Program P R VecShare) = record {
        p0 = λ c s k.
            ripple_carry c (map (map (λ t. t.p0)) us) (map (map (λ t. t.p0)) vs) s (λ c' s'.
              k (xor_assign (xor_assign (map (λ t. t.p0) ul) (map (λ t. t.p0) vl)) c') s');
        p1 = λ c s k.
            ripple_carry c (map (map (λ t. t.p1)) us) (map (map (λ t. t.p1)) vs) s (λ c' s'.
              k (xor_assign (xor_assign (map (λ t. t.p1) ul) (map (λ t. t.p1) vl)) c') s');
        p2 = λ c s k.
            ripple_carry c (map (map (λ t. t.p2)) us) (map (map (λ t. t.p2)) vs) s (λ c' s'.
              k (xor_assign (xor_assign (map (λ t. t.p2) ul) (map (λ t. t.p2) vl)) c') s');
      } in
      let last : Trio (VecShare → Program P R VecShare) = record {
        p0 = λ c s k. k (xor_assign (xor_assign (map (λ t. t.p0) ul) (map (λ t. t.p0) vl)) c) s;
        p1 = λ c s k. k (xor_assign (xor_assign (map (λ t. t.p1) ul) (map (λ t. t.p1) vl)) c) s;
        p2 = λ c s k. k (xor_assign (xor_assign (map (λ t. t.p2) ul) (map (λ t. t.p2) vl)) c) s;
      } in
      let (a0, a1, a2) = xor_assign-columns hul hvl in
      rw
        (
          eu,
          ev,
          msb_of_sum-party {P = P} {R = R} (λ t. t.p0) u0 u1 ul v0 vl us vs,
          msb_of_sum-party {P = P} {R = R} (λ t. t.p1) u0 u1 ul v0 vl us vs,
          msb_of_sum-party {P = P} {R = R} (λ t. t.p2) u0 u1 ul v0 vl us vs,
        )
        (then_made-Yields ids columns _ after_and (and_many-Slice R ids s n u1 v0 f1 g0 h h1 k0)
          λ cs s' h' hcs.
            then_made-Yields ids columns (ripples cs us vs) last
              (ripple_carry-Yields R ids n s' cs (and_words f1 g0) h' hcs hus hvs)
              λ ds s'' h'' hds.
                let w = xor_trios (xor_trios ul vl) ds in
                let top = xor-Slice hul hvl in
                let (b0, b1, b2) = xor_assign-columns top hds in
                rw (a0, a1, a2, b0, b1, b2)
                  (pure-Yields ids (columns w) h'' (w, refl, xor-Slice top hds)))
