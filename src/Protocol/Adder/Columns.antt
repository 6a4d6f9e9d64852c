-- ===== src/Protocol/Adder/Columns.antt =====
-- The bits at one place of the words, over the positions of the numbers.
use iris_mpc.Prelude.{
  ◌≡◌, refl, sym, ap, ◌∙◌, arith, ℕ, suc, Bool, ◌&&◌, List, [], ◌∷◌, ◌++◌, map, map-append, length,
  length-map, length-append, map-agree,
}
use iris_mpc.Prelude.Bits.{xor, bit_at, bit_at-bit_xor, bit_at-bit_and}
use iris_mpc.Id.{Trio, map_trio}
use iris_mpc.Protocol.Adder.Circuit.{
  sum_bit, carry_bit, ripple, sum_bit_hom, carry_bit_hom, ripple_hom,
}
use iris_mpc.Protocol.Adder.Slices.{Words, xor_words, and_words}
use iris_mpc.Protocol.Adder.Summands.{sum_words, carry_words}
use iris_mpc.Protocol.Adder.Msb.{top_words}
use iris_mpc.Protocol.Adder.TwoCarries.{last_carry}
use iris_mpc.Protocol.Adder.Sum
use iris_mpc.Protocol.Adder.Sum.{total, msb-bit}

-- Bit `b` of word `j`.
abbrev pub place : ℕ → ℕ → Words → Bool
place j b w = bit_at (w j) b

-- The sum of the three numbers whose bits, from the lowest on, are bit `b` of word `j` of each row.
abbrev pub total_at : ℕ → ℕ → List (Trio Words) → ℕ
total_at j b ts = total (map (map_trio (place j b)) ts)

module _ (j b : ℕ) where
  on_xor : (x y : Words) → place j b (xor_words x y) ≡ xor (place j b x) (place j b y)
  on_xor x y = bit_at-bit_xor (x j) (y j) b

  on_and : (x y : Words) → place j b (and_words x y) ≡ (place j b x && place j b y)
  on_and x y = bit_at-bit_and (x j) (y j) b

  sum_place : (t : Trio Words) → place j b (sum_words t) ≡ sum_bit xor ◌&&◌ (map_trio (place j b) t)
  sum_place = sum_bit_hom xor_words and_words xor ◌&&◌ (place j b) on_xor on_and

  carry_place :
      (t : Trio Words) → place j b (carry_words t) ≡ carry_bit xor ◌&&◌ (map_trio (place j b) t)
  carry_place = carry_bit_hom xor_words and_words xor ◌&&◌ (place j b) on_xor on_and

  -- The last row of the adder holds the highest positions of the sums.
  pub top_words-bit :
      (t0 t1 t u : Trio Words) (r : List (Trio Words))
      → place j b (
          top_words
            (sum_words t1)
            (sum_words u)
            (carry_words t0)
            (carry_words t)
            (map sum_words (r ++ t ∷ []))
            (map carry_words (t1 ∷ r)))
        ≡ bit_at
            (total_at j b ((t0 ∷ t1 ∷ (r ++ t ∷ [])) ++ u ∷ []))
            (suc (suc (length (r ++ t ∷ []))))
  top_words-bit t0 t1 t u r =
      let q : Trio Words → Trio Bool = map_trio (place j b) in
      let pre = r ++ t ∷ [] in
      let size : suc (suc (length (map q r ++ q t ∷ []))) ≡ suc (suc (length pre)) =
        omega
          (arith, length-append (map q r) (q t ∷ []), length-append r (t ∷ []), length-map q r) in
      rw
        (
          on_xor (xor_words (sum_words u) (carry_words t)) (
              ripple xor_words and_words (and_words (sum_words t1) (carry_words t0))
                (map sum_words pre) (map carry_words (t1 ∷ r))),
          on_xor (sum_words u) (carry_words t),
          ripple_hom xor_words and_words xor ◌&&◌ (place j b) on_xor on_and
              (and_words (sum_words t1) (carry_words t0)) (map sum_words pre)
              (map carry_words (t1 ∷ r)),
          on_and (sum_words t1) (carry_words t0),
          sum_place u,
          carry_place t,
          sum_place t1,
          carry_place t0,
          map-agree (place j b) sum_words (sum_bit xor ◌&&◌) q sum_place pre,
          map-agree (place j b) carry_words (carry_bit xor ◌&&◌) q carry_place (t1 ∷ r),
          map-append q pre (u ∷ []),
          map-append q r (t ∷ []),
        )
        (sym (msb-bit (q t0) (q t1) (q t) (q u) (map q r))
          ∙ ap (bit_at (total (q t0 ∷ q t1 ∷ ((map q r ++ q t ∷ []) ++ q u ∷ [])))) size)

  -- The adder's two words hold the two positions above the numbers.
  pub two_carries-bits :
      (t0 t1 u : Trio Words) (r : List (Trio Words))
      → let d = last_carry t0 t1 r u in
        let m = suc (suc (length (r ++ u ∷ []))) in
        let n = total_at j b (t0 ∷ t1 ∷ (r ++ u ∷ [])) in
        (place j b (xor_words (carry_words u) d) ≡ bit_at n m)
        × (place j b (and_words (carry_words u) d) ≡ bit_at n (suc m))
  two_carries-bits t0 t1 u r =
      let q : Trio Words → Trio Bool = map_trio (place j b) in
      let d = last_carry t0 t1 r u in
      let (e, f) = Sum.two_carries-bits (q t0) (q t1) (q u) (map q r) in
      let size : suc (suc (length (map q r ++ q u ∷ []))) ≡ suc (suc (length (r ++ u ∷ []))) =
        omega
          (arith, length-append (map q r) (q u ∷ []), length-append r (u ∷ []), length-map q r) in
      let sums : map q (r ++ u ∷ []) ≡ map q r ++ q u ∷ [] = map-append q r (u ∷ []) in
      let carried : place j b d
          ≡ ripple xor ◌&&◌ (sum_bit xor ◌&&◌ (q t1) && carry_bit xor ◌&&◌ (q t0))
              (map (sum_bit xor ◌&&◌) (map q r ++ q u ∷ []))
              (map (carry_bit xor ◌&&◌) (q t1 ∷ map q r)) =
        rw
          (
            ripple_hom xor_words and_words xor ◌&&◌ (place j b) on_xor on_and
                (and_words (sum_words t1) (carry_words t0)) (map sum_words (r ++ u ∷ []))
                (map carry_words (t1 ∷ r)),
            on_and (sum_words t1) (carry_words t0),
            sum_place t1,
            carry_place t0,
            map-agree (place j b) sum_words (sum_bit xor ◌&&◌) q sum_place (r ++ u ∷ []),
            map-agree (place j b) carry_words (carry_bit xor ◌&&◌) q carry_place (t1 ∷ r),
            sums,
          )
          refl in
      rw (on_xor (carry_words u) d, on_and (carry_words u) d, carry_place u, carried, sums, ← size)
        (sym e, sym f)
