-- ===== src/Shares/Transpose/Arrays.antt =====
-- The transpositions of arrays: the bit `c` of the row `r` is the bit `r` of the share `c`.
use iris_mpc.Prelude.{
  ℕ, ◌*◌, ◌/◌, ◌%◌, ◌+◌, ◌^◌, ◌<◌, ◌≡◌, ◌∙◌, refl, ap₂, true, some, tabulate, arith,
}
use iris_mpc.Prelude.Bits.{bit_at}
use iris_mpc.Shares.RingElement.{wrapping_shl}
use iris_mpc.Shares.Share.{Share}
use iris_mpc.Shares.Transpose.{
  share64_from_share16s, share128_from_share16s, share64_from_share32s, share128_from_share32s,
  share128_from_share64s, share_transpose16x64, share_transpose16x128, share_transpose32x64,
  share_transpose32x128, share_transpose64x64, share_transpose64x128,
}
use iris_mpc.Shares.Transpose.Rounds.{all_swapped, rounds16, rounds32, rounds64}
use iris_mpc.Shares.Transpose.Places.{all_below, masks_fit, transposed}
use iris_mpc.Shares.Transpose.Bits.{IsComponent, a-IsComponent, b-IsComponent}
use iris_mpc.Shares.Transpose.Correct.{packed, packed-bit, found}
use iris_mpc.Shares.Transpose.Bounds.{all_swapped-lt}
use iris_mpc.Shares.Transpose.Within.{AreWithin, IsTransposed, packed-AreWithin}
use iris_mpc.Shares.Transpose.Whole.{all_swapped-bit}

places16x64 : all_below 16 (λ r. all_below 64 (transposed 4 16 r)) ≡ true
places16x64 = refl

masks16x64 : masks_fit 4 64 8 71777214294589695 ≡ true
unfolding wrapping_shl
masks16x64 = refl

made16x64 :
    (f : ℕ → Share)
    → share_transpose16x64 (tabulate 64 f)
      ≡ some (tabulate 16 (all_swapped 4 64 8 71777214294589695 (packed 16 4 f)))
unfolding share_transpose16x64 share64_from_share16s tabulate
made16x64 f = rounds16 64 71777214294589695 (packed 16 4 f)

pub share_transpose16x64-IsTransposed :
    (f : ℕ → Share) → AreWithin 16 f → IsTransposed 16 64 f (share_transpose16x64 (tabulate 64 f))
share_transpose16x64-IsTransposed f small =
    let bits = λ (p : Share → ℕ) (is : IsComponent p) (within : (i : ℕ) → p (f i) < 2 ^ 16).
      packed-bit 4 16 64 places16x64 4 71777214294589695 f is within masks16x64 (omega arith)
        (λ c h. omega arith) in
    record {
      rows = all_swapped 4 64 8 71777214294589695 (packed 16 4 f);
      made = made16x64 f;
      within = packed-AreWithin 4 16 64 4 71777214294589695 f refl (omega arith) small;
      a = bits (λ s. s.a) a-IsComponent small.a;
      b = bits (λ s. s.b) b-IsComponent small.b;
    }

places16x128 : all_below 16 (λ r. all_below 128 (transposed 4 16 r)) ≡ true
places16x128 = refl

masks16x128 : masks_fit 4 128 8 1324055902416102970674609367438786815 ≡ true
unfolding wrapping_shl
masks16x128 = refl

made16x128 :
    (f : ℕ → Share)
    → share_transpose16x128 (tabulate 128 f)
      ≡ some
          (tabulate 16 (all_swapped 4 128 8 1324055902416102970674609367438786815 (packed 16 8 f)))
unfolding share_transpose16x128 share128_from_share16s tabulate
made16x128 f = rounds16 128 1324055902416102970674609367438786815 (packed 16 8 f)

pub share_transpose16x128-IsTransposed :
    (f : ℕ → Share)
    → AreWithin 16 f
    → IsTransposed 16 128 f (share_transpose16x128 (tabulate 128 f))
share_transpose16x128-IsTransposed f small =
    let bits = λ (p : Share → ℕ) (is : IsComponent p) (within : (i : ℕ) → p (f i) < 2 ^ 16).
      packed-bit 4 16 128 places16x128 8 1324055902416102970674609367438786815 f is within
        masks16x128 (omega arith) (λ c h. omega arith) in
    record {
      rows = all_swapped 4 128 8 1324055902416102970674609367438786815 (packed 16 8 f);
      made = made16x128 f;
      within =
          packed-AreWithin 4 16 128 8 1324055902416102970674609367438786815 f refl (omega arith)
            small;
      a = bits (λ s. s.a) a-IsComponent small.a;
      b = bits (λ s. s.b) b-IsComponent small.b;
    }

places32x64 : all_below 32 (λ r. all_below 64 (transposed 5 32 r)) ≡ true
places32x64 = refl

masks32x64 : masks_fit 5 64 16 281470681808895 ≡ true
unfolding wrapping_shl
masks32x64 = refl

made32x64 :
    (f : ℕ → Share)
    → share_transpose32x64 (tabulate 64 f)
      ≡ some (tabulate 32 (all_swapped 5 64 16 281470681808895 (packed 32 2 f)))
unfolding share_transpose32x64 share64_from_share32s tabulate
made32x64 f = rounds32 64 281470681808895 (packed 32 2 f)

pub share_transpose32x64-IsTransposed :
    (f : ℕ → Share) → AreWithin 32 f → IsTransposed 32 64 f (share_transpose32x64 (tabulate 64 f))
share_transpose32x64-IsTransposed f small =
    let bits = λ (p : Share → ℕ) (is : IsComponent p) (within : (i : ℕ) → p (f i) < 2 ^ 32).
      packed-bit 5 32 64 places32x64 2 281470681808895 f is within masks32x64 (omega arith)
        (λ c h. omega arith) in
    record {
      rows = all_swapped 5 64 16 281470681808895 (packed 32 2 f);
      made = made32x64 f;
      within = packed-AreWithin 5 32 64 2 281470681808895 f refl (omega arith) small;
      a = bits (λ s. s.a) a-IsComponent small.a;
      b = bits (λ s. s.b) b-IsComponent small.b;
    }

places32x128 : all_below 32 (λ r. all_below 128 (transposed 5 32 r)) ≡ true
places32x128 = refl

masks32x128 : masks_fit 5 128 16 5192217631581220737344928932233215 ≡ true
unfolding wrapping_shl
masks32x128 = refl

made32x128 :
    (f : ℕ → Share)
    → share_transpose32x128 (tabulate 128 f)
      ≡ some (tabulate 32 (all_swapped 5 128 16 5192217631581220737344928932233215 (packed 32 4 f)))
unfolding share_transpose32x128 share128_from_share32s tabulate
made32x128 f = rounds32 128 5192217631581220737344928932233215 (packed 32 4 f)

pub share_transpose32x128-IsTransposed :
    (f : ℕ → Share)
    → AreWithin 32 f
    → IsTransposed 32 128 f (share_transpose32x128 (tabulate 128 f))
share_transpose32x128-IsTransposed f small =
    let bits = λ (p : Share → ℕ) (is : IsComponent p) (within : (i : ℕ) → p (f i) < 2 ^ 32).
      packed-bit 5 32 128 places32x128 4 5192217631581220737344928932233215 f is within masks32x128
        (omega arith) (λ c h. omega arith) in
    record {
      rows = all_swapped 5 128 16 5192217631581220737344928932233215 (packed 32 4 f);
      made = made32x128 f;
      within =
          packed-AreWithin 5 32 128 4 5192217631581220737344928932233215 f refl (omega arith) small;
      a = bits (λ s. s.a) a-IsComponent small.a;
      b = bits (λ s. s.b) b-IsComponent small.b;
    }

places64x128 : all_below 64 (λ r. all_below 128 (transposed 6 64 r)) ≡ true
places64x128 = refl

masks64x128 : masks_fit 6 128 32 79228162495817593524129366015 ≡ true
unfolding wrapping_shl
masks64x128 = refl

made64x128 :
    (f : ℕ → Share)
    → share_transpose64x128 (tabulate 128 f)
      ≡ some (tabulate 64 (all_swapped 6 128 32 79228162495817593524129366015 (packed 64 2 f)))
unfolding share_transpose64x128 share128_from_share64s tabulate
made64x128 f = rounds64 128 79228162495817593524129366015 (packed 64 2 f)

pub share_transpose64x128-IsTransposed :
    (f : ℕ → Share)
    → AreWithin 64 f
    → IsTransposed 64 128 f (share_transpose64x128 (tabulate 128 f))
share_transpose64x128-IsTransposed f small =
    let bits = λ (p : Share → ℕ) (is : IsComponent p) (within : (i : ℕ) → p (f i) < 2 ^ 64).
      packed-bit 6 64 128 places64x128 2 79228162495817593524129366015 f is within masks64x128
        (omega arith) (λ c h. omega arith) in
    record {
      rows = all_swapped 6 128 32 79228162495817593524129366015 (packed 64 2 f);
      made = made64x128 f;
      within = packed-AreWithin 6 64 128 2 79228162495817593524129366015 f refl (omega arith) small;
      a = bits (λ s. s.a) a-IsComponent small.a;
      b = bits (λ s. s.b) b-IsComponent small.b;
    }

places64x64 : all_below 64 (λ r. all_below 64 (transposed 6 64 r)) ≡ true
places64x64 = refl

masks64x64 : masks_fit 6 64 32 4294967295 ≡ true
unfolding wrapping_shl
masks64x64 = refl

made64x64 :
    (f : ℕ → Share)
    → share_transpose64x64 (tabulate 64 f) ≡ some (tabulate 64 (all_swapped 6 64 32 4294967295 f))
unfolding share_transpose64x64 tabulate
made64x64 f = rounds64 64 4294967295 f

bits64x64 :
    (f : ℕ → Share) {p : Share → ℕ}
    → IsComponent p
    → (r c : ℕ) → r < 64
    → c < 64
    → bit_at (p (all_swapped 6 64 32 4294967295 f r)) c ≡ bit_at (p (f c)) r
bits64x64 f {p} is r c hr hc =
    let (e0, e1) = found 6 64 64 places64x64 r c hr hc in
    let column : c % 64 ≡ c = omega arith in
    let row : r + 64 * (c / 64) ≡ r = omega arith in
    all_swapped-bit is 6 64 32 4294967295 f r c hc masks64x64
    ∙ ap₂ (λ i k. bit_at (p (f i)) k) (e0 ∙ column) (e1 ∙ row)

pub share_transpose64x64-IsTransposed :
    (f : ℕ → Share) → AreWithin 64 f → IsTransposed 64 64 f (share_transpose64x64 (tabulate 64 f))
share_transpose64x64-IsTransposed f small = record {
  rows = all_swapped 6 64 32 4294967295 f;
  made = made64x64 f;
  within = record {
    a = all_swapped-lt a-IsComponent 64 6 4294967295 32 f (omega arith) small.a;
    b = all_swapped-lt b-IsComponent 64 6 4294967295 32 f (omega arith) small.b;
  };
  a = bits64x64 f a-IsComponent;
  b = bits64x64 f b-IsComponent;
}
