-- ===== src/Shares/Transpose/Correct.antt =====
-- The bits of the rows after all rounds, when each row starts from narrower words.
use iris_mpc.Prelude.{
  ℕ, ◌+◌, ◌*◌, ◌/◌, ◌%◌, ◌^◌, ◌<◌, ◌≡◌, ◌∙◌, ap, true, ◌==◌, map, tabulate, arith,
}
use native.Mathlib.Nat.{div-add-mod}
use iris_mpc.Prelude.Bits.{bit_at}
use iris_mpc.Shares.Share.{Share}
use iris_mpc.Shares.Transpose.{share_joined}
use iris_mpc.Shares.Transpose.Rounds.{all_swapped}
use iris_mpc.Shares.Transpose.Places.{
  sources, all_below, all_below-lt, masks_fit, and_true, transposed,
}
use iris_mpc.Shares.Transpose.Bits.{IsComponent}
use iris_mpc.Shares.Transpose.Join.{joined-bit, get_elem?-tabulate, tabulate-AreBelow}
use iris_mpc.Shares.Transpose.Whole.{all_swapped-bit}

-- The rows that the rounds start from, each of `d` shares of `n` bits.
abbrev pub packed : ℕ → ℕ → (ℕ → Share) → ℕ → Share
packed n d f r = share_joined n (tabulate d (λ q. f (n * q + r)))

equal : (a b : ℕ) → (a == b) ≡ true → a ≡ b
equal a b h = ground arith

module _ (fuel n w : ℕ) (all : all_below n (λ r. all_below w (transposed fuel n r)) ≡ true) where
  pub found :
      (r c : ℕ)
      → r < n
      → c < w
      → let q = sources fuel (n / 2) (r, c) in (q.0 ≡ c % n) × (q.1 ≡ r + n * (c / n))
  found r c hr hc =
      let q = sources fuel (n / 2) (r, c) in
      let (a, b) = and_true (q.0 == c % n) _ (
        all_below-lt w (transposed fuel n r)
          (all_below-lt n (λ r. all_below w (transposed fuel n r)) all r hr) c hc) in
      (equal q.0 (c % n) a, equal q.1 (r + n * (c / n)) b)

  -- Where each word of the rows is put together of `d` shares.
  pub packed-bit :
      (d m : ℕ) (f : ℕ → Share) {p : Share → ℕ} (is : IsComponent p)
      → ((i : ℕ) → p (f i) < 2 ^ n)
      → masks_fit fuel w (n / 2) m ≡ true
      → 0 < n
      → ((c : ℕ) → c < w → c / n < d)
      → (r c : ℕ) → r < n
      → c < w
      → bit_at (p (all_swapped fuel w (n / 2) m (packed n d f) r)) c ≡ bit_at (p (f c)) r
  packed-bit d m f {p} is small fit pos shares r c hr hc =
      let (e0, e1) = found r c hr hc in
      let q = c / n in
      let xs = tabulate d (λ q. f (n * q + c % n)) in
      let index : r + n * q ≡ n * q + r = omega arith in
      all_swapped-bit is fuel w (n / 2) m (packed n d f) r c hc fit
      ∙ rw (e0, e1, is.on_joined n xs, index)
          (joined-bit n (map p xs) q (p (f (n * q + c % n))) r
              (tabulate-AreBelow p n d (λ q. f (n * q + c % n)) (λ i. small (n * i + c % n)))
              (get_elem?-tabulate p n d (λ q. f (n * q + c % n)) q (shares c hc)) hr
            ∙ ap (λ i. bit_at (p (f i)) r) (div-add-mod c n))
