-- ===== src/Shares/Transpose/Bits.antt =====
-- The rounds of the transposition, bit by bit.
use native.Mathlib.Nat.{mod-eq_of_lt}
use iris_mpc.Prelude.{
  ℕ, ◌+◌, ◌-◌, ◌*◌, ◌/◌, ◌%◌, ◌^◌, ◌<◌, ◌≤◌, ◌≡◌, ◌∙◌, refl, ap, Bool, true, false, not, ◌&&◌, ◌⊎◌,
  ◌||◌, ltb, leb, inl, inr, Bool-cases, List, map, bit_and, bit_xor, arith,
}
use iris_mpc.Prelude.Bits.{bit_at, xor, bit_at-bit_xor, bit_at-bit_and}
use iris_mpc.Prelude.Shifts.{bit_at-shr, bit_at-shl, bit_at-shl_low, bit_at-mod}
use iris_mpc.Shares.RingElement.{wrapping_shr, wrapping_shl}
use iris_mpc.Shares.Share
use iris_mpc.Shares.Share.{Share}
use iris_mpc.Shares.Transpose.{share_joined, joined}
use iris_mpc.Shares.Transpose.Rounds.{exchanged, swapped}
use iris_mpc.Shares.Transpose.Places.{is_even, source, fits}

shr-bit : (w a j c : ℕ) → j < w → bit_at (wrapping_shr w a j) c ≡ bit_at a (j + c)
unfolding wrapping_shr
shr-bit w a j c h = ap (λ d. bit_at (a / 2 ^ d) c) (mod-eq_of_lt h) ∙ bit_at-shr a j c

shl-bit_low : (w a j c : ℕ) → j < w → c < w → c < j → bit_at (wrapping_shl w a j) c ≡ false
unfolding wrapping_shl
shl-bit_low w a j c h hc low =
    bit_at-mod (a * 2 ^ (j % w)) w c hc
    ∙ ap (λ d. bit_at (a * 2 ^ d) c) (mod-eq_of_lt h)
    ∙ bit_at-shl_low a j c low

shl-bit : (w a j c : ℕ) → j < w → c < w → j ≤ c → bit_at (wrapping_shl w a j) c ≡ bit_at a (c - j)
unfolding wrapping_shl
shl-bit w a j c h hc high =
    bit_at-mod (a * 2 ^ (j % w)) w c hc
    ∙ ap (λ d. bit_at (a * 2 ^ d) c) (mod-eq_of_lt h)
    ∙ ap (bit_at (a * 2 ^ j)) back
    ∙ bit_at-shl a j (c - j)
  where
    back : c ≡ j + (c - j)
    back = omega arith

-- One of the two components of a share.
pub record IsComponent (p : Share → ℕ) : Type 0 where
  pub on_xor : (s t : Share) → p (Share.xor s t) ≡ bit_xor (p s) (p t)
  pub on_and : (s : Share) (m : ℕ) → p (Share.and s m) ≡ bit_and (p s) m
  pub on_shr : (w : ℕ) (s : Share) (j : ℕ) → p (Share.shr w s j) ≡ wrapping_shr w (p s) j
  pub on_shl : (w : ℕ) (s : Share) (j : ℕ) → p (Share.shl w s j) ≡ wrapping_shl w (p s) j
  pub on_joined : (k : ℕ) (xs : List Share) → p (share_joined k xs) ≡ joined k (map p xs)

pub a-IsComponent : IsComponent (λ s. s.a)
unfolding Share.xor Share.and Share.shr Share.shl share_joined
a-IsComponent = record {
  on_xor = λ s t. refl;
  on_and = λ s m. refl;
  on_shr = λ w s j. refl;
  on_shl = λ w s j. refl;
  on_joined = λ k xs. refl;
}

pub b-IsComponent : IsComponent (λ s. s.b)
unfolding Share.xor Share.and Share.shr Share.shl share_joined
b-IsComponent = record {
  on_xor = λ s t. refl;
  on_and = λ s m. refl;
  on_shr = λ w s j. refl;
  on_shl = λ w s j. refl;
  on_joined = λ k xs. refl;
}

-- What the test of a mask says of one place.
pub fits-even :
    (w m j c : ℕ)
    → fits w m j c ≡ true
    → is_even c j ≡ true
    → (bit_at m c ≡ true) × (c + j < w) × ((c < j) ⊎ (bit_at m (c - j) ≡ false))
fits-even w m j c h e = even_facts (bit_at m c) (bit_at m (c - j)) (c + j) w c j (rw (e, fits) at h)
  where
    even_facts :
        (x y : Bool) (a w c j : ℕ)
        → (x && (ltb a w && (ltb c j || not y))) ≡ true
        → (x ≡ true) × (a < w) × ((c < j) ⊎ (y ≡ false))
    even_facts x y a w c j h = ground arith

pub fits-odd :
    (w m j c : ℕ)
    → fits w m j c ≡ true
    → is_even c j ≡ false
    → (bit_at m c ≡ false) × (j ≤ c) × (bit_at m (c - j) ≡ true)
fits-odd w m j c h e = odd_facts (bit_at m c) (bit_at m (c - j)) c j (rw (e, fits) at h)
  where
    odd_facts :
        (x y : Bool) (c j : ℕ)
        → (not x && (leb j c && y)) ≡ true
        → (x ≡ false) × (j ≤ c) × (y ≡ true)
    odd_facts x y c j h = ground arith

module _ {p : Share → ℕ} (is : IsComponent p) (w m j : ℕ) (in_width : j < w) where
  exchanged-bit :
      (x y : Share) (c : ℕ)
      → bit_at (p (exchanged w m j x y)) c
        ≡ (xor (bit_at (p x) (j + c)) (bit_at (p y) c) && bit_at m c)
  exchanged-bit x y c =
      rw
        (
          is.on_and (Share.xor (Share.shr w x j) y) m,
          bit_at-bit_and (p (Share.xor (Share.shr w x j) y)) m c,
          is.on_xor (Share.shr w x j) y,
          bit_at-bit_xor (p (Share.shr w x j)) (p y) c,
          is.on_shr w x j,
          shr-bit w (p x) j c in_width,
        )
        refl

  module _ (x y : Share) (c : ℕ) (in_row : c < w) where
    low-bit :
        is_even c j ≡ true
        → fits w m j c ≡ true
        → bit_at (p (Share.xor x (Share.shl w (exchanged w m j x y) j))) c ≡ bit_at (p x) c
    low-bit e h =
        let t = exchanged w m j x y in
        rw
          (
            is.on_xor x (Share.shl w t j),
            bit_at-bit_xor (p x) (p (Share.shl w t j)) c,
            is.on_shl w t j,
          )
          (ap (xor (bit_at (p x) c)) (none (side c j)) ∙ xor_false (bit_at (p x) c))
      where
        xor_false : (b : Bool) → xor b false ≡ b
        xor_false b = ground arith

        and_false : (b d : Bool) → d ≡ false → (b && d) ≡ false
        and_false b d h = ground arith

        side : (c j : ℕ) → (c < j) ⊎ (j ≤ c)
        side c j = omega arith

        none : (c < j) ⊎ (j ≤ c) → bit_at (wrapping_shl w (p (exchanged w m j x y)) j) c ≡ false
        none (inl low) = shl-bit_low w (p (exchanged w m j x y)) j c in_width in_row low
        none (inr high) =
            shl-bit w (p (exchanged w m j x y)) j c in_width in_row high
            ∙ exchanged-bit x y (c - j)
            ∙ elim (fits-even w m j c h e).2 [
              | inl low ↦ absurd (omega arith)
              | inr off ↦
                  and_false (xor (bit_at (p x) (j + (c - j))) (bit_at (p y) (c - j)))
                    (bit_at m (c - j)) off
            ]

    low_moved-bit :
        is_even c j ≡ false
        → fits w m j c ≡ true
        → bit_at (p (Share.xor x (Share.shl w (exchanged w m j x y) j))) c ≡ bit_at (p y) (c - j)
    low_moved-bit e h =
        let t = exchanged w m j x y in
        let (_, high, on) = fits-odd w m j c h e in
        let back : j + (c - j) ≡ c = omega arith in
        rw
          (
            is.on_xor x (Share.shl w t j),
            bit_at-bit_xor (p x) (p (Share.shl w t j)) c,
            is.on_shl w t j,
            shl-bit w (p t) j c in_width in_row high,
            exchanged-bit x y (c - j),
            on,
            back,
          )
          (moved (bit_at (p x) c) (bit_at (p y) (c - j)))
      where
        moved : (a b : Bool) → xor a (xor a b && true) ≡ b
        moved a b = ground arith

    high_moved-bit :
        is_even c j ≡ true
        → fits w m j c ≡ true
        → bit_at (p (Share.xor y (exchanged w m j x y))) c ≡ bit_at (p x) (c + j)
    high_moved-bit e h =
        let (on, _, _) = fits-even w m j c h e in
        let turn : j + c ≡ c + j = omega arith in
        rw
          (
            is.on_xor y (exchanged w m j x y),
            bit_at-bit_xor (p y) (p (exchanged w m j x y)) c,
            exchanged-bit x y c,
            on,
            turn,
          )
          (moved (bit_at (p x) (c + j)) (bit_at (p y) c))
      where
        moved : (a b : Bool) → xor b (xor a b && true) ≡ a
        moved a b = ground arith

    high-bit :
        is_even c j ≡ false
        → fits w m j c ≡ true
        → bit_at (p (Share.xor y (exchanged w m j x y))) c ≡ bit_at (p y) c
    high-bit e h =
        let (off, _, _) = fits-odd w m j c h e in
        rw
          (
            is.on_xor y (exchanged w m j x y),
            bit_at-bit_xor (p y) (p (exchanged w m j x y)) c,
            exchanged-bit x y c,
            off,
          )
          (kept (bit_at (p x) (j + c)) (bit_at (p y) c))
      where
        kept : (a b : Bool) → xor b (xor a b && false) ≡ b
        kept a b = ground arith

  -- A round takes every bit from its source.
  pub swapped-bit :
      (f : ℕ → Share) (r c : ℕ)
      → c < w
      → fits w m j c ≡ true
      → let (r', c') = source j (r, c) in bit_at (p (swapped w m j f r)) c ≡ bit_at (p (f r')) c'
  swapped-bit f r c h fit = elim (Bool-cases (is_even r j)) [
    | inl er ↦ elim (Bool-cases (is_even c j)) [
      | inl ec ↦ rw (swapped, source, er, ec) (low-bit (f r) (f (r + j)) c h ec fit)
      | inr ec ↦ rw (swapped, source, er, ec) (low_moved-bit (f r) (f (r + j)) c h ec fit)
    ]
    | inr er ↦ elim (Bool-cases (is_even c j)) [
      | inl ec ↦ rw (swapped, source, er, ec) (high_moved-bit (f (r - j)) (f r) c h ec fit)
      | inr ec ↦ rw (swapped, source, er, ec) (high-bit (f (r - j)) (f r) c h ec fit)
    ]
  ]
