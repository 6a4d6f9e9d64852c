-- ===== src/Shares/Transpose/Bounds.antt =====
-- The words of the transposition stay within their width.
use native.Mathlib.Nat.{div-le_self, pow-suc}
use iris_mpc.Prelude.{
  ℕ, zero, suc, ◌+◌, ◌-◌, ◌*◌, ◌/◌, ◌%◌, ◌^◌, ◌<◌, ◌≡◌, ◌∙◌, sym, ap, false, inl, inr, Bool-cases,
  List, map, length, length-map, arith,
}
use iris_mpc.Prelude.Bits.{bit_at, bit_at-ext, bit_at-zero, bit_xor-lt, bit_and-lt}
use iris_mpc.Shares.RingElement.{wrapping_shr, wrapping_shl}
use iris_mpc.Shares.Share
use iris_mpc.Shares.Share.{Share}
use iris_mpc.Shares.Sharing.Linear.{mod-lt-pow}
use iris_mpc.Shares.Transpose.{joined, share_joined}
use iris_mpc.Shares.Transpose.Rounds.{exchanged, swapped, next_mask, all_swapped}
use iris_mpc.Shares.Transpose.Places.{is_even}
use iris_mpc.Shares.Transpose.Bits.{IsComponent}
use iris_mpc.Shares.Transpose.Join.{AreBelow, joined-high}

-- A number without bits from `w` on.
lt-bits : (w a : ℕ) → ((i : ℕ) → bit_at a (w + i) ≡ false) → a < 2 ^ w
lt-bits zero a h =
    let none : a ≡ 0 =
      bit_at-ext a 0
        (λ i. ap (bit_at a) {x = i} {y = zero + i} (omega arith) ∙ h i ∙ sym (bit_at-zero i)) in
    omega arith
lt-bits (suc w) a h =
    let half : a / 2 < 2 ^ w =
      lt-bits w (a / 2)
        (λ i. ap (bit_at a) {x = suc (w + i)} {y = suc w + i} (omega arith) ∙ h i) in
    omega (arith, pow-suc 2 w)

shl-lt : (w a j : ℕ) → wrapping_shl w a j < 2 ^ w
unfolding wrapping_shl
shl-lt w a j = mod-lt-pow w _

shr-lt : (w a j : ℕ) → a < 2 ^ w → wrapping_shr w a j < 2 ^ w
unfolding wrapping_shr
shr-lt w a j h = omega (arith, div-le_self a (2 ^ (j % w)))

module _ {p : Share → ℕ} (is : IsComponent p) (w : ℕ) where
  exchanged-lt :
      (m j : ℕ) (x y : Share)
      → m < 2 ^ w
      → p x < 2 ^ w
      → p y < 2 ^ w
      → p (exchanged w m j x y) < 2 ^ w
  exchanged-lt m j x y hm hx hy =
      rw
        (
          is.on_and (Share.xor (Share.shr w x j) y) m,
          is.on_xor (Share.shr w x j) y,
          is.on_shr w x j,
        )
        (bit_and-lt w _ _ (bit_xor-lt w _ _ (shr-lt w (p x) j hx) hy) hm)

  swapped-lt :
      (m j : ℕ) (f : ℕ → Share)
      → m < 2 ^ w
      → ((r : ℕ) → p (f r) < 2 ^ w)
      → (r : ℕ) → p (swapped w m j f r) < 2 ^ w
  swapped-lt m j f hm h r = elim (Bool-cases (is_even r j)) [
    | inl e ↦
        let t = exchanged w m j (f r) (f (r + j)) in
        rw (swapped, e, is.on_xor (f r) (Share.shl w t j), is.on_shl w t j)
          (bit_xor-lt w _ _ (h r) (shl-lt w (p t) j))
    | inr e ↦
        let t = exchanged w m j (f (r - j)) (f r) in
        rw (swapped, e, is.on_xor (f r) t)
          (bit_xor-lt w _ _ (h r) (exchanged-lt m j (f (r - j)) (f r) hm (h (r - j)) (h r)))
  ]

  pub all_swapped-lt :
      (fuel m j : ℕ) (f : ℕ → Share)
      → m < 2 ^ w
      → ((r : ℕ) → p (f r) < 2 ^ w)
      → (r : ℕ) → p (all_swapped fuel w j m f r) < 2 ^ w
  all_swapped-lt zero m j f hm h r = h r
  all_swapped-lt (suc fuel) m j f hm h r =
      all_swapped-lt fuel (next_mask w j m) (j / 2) (swapped w m j f)
        (bit_xor-lt w _ _ hm (shl-lt w m (j / 2))) (swapped-lt m j f hm h) r

  -- Words that are put together of words of `k` bits.
  pub share_joined-lt :
      (k : ℕ) (xs : List Share)
      → AreBelow k (map p xs)
      → k * length xs ≡ w
      → p (share_joined k xs) < 2 ^ w
  share_joined-lt k xs small e =
      rw (is.on_joined k xs, ← e)
        (lt-bits (k * length xs) (joined k (map p xs)) (λ i.
          ap (λ n. bit_at (joined k (map p xs)) (k * n + i)) (sym (length-map p xs))
          ∙ joined-high k (map p xs) i small))
