-- ===== src/Shares/Transpose/Within.antt =====
-- What a transposition is to give, and the bounds of the rows it starts from.
use iris_mpc.Prelude.{
  ℕ, ◌*◌, ◌/◌, ◌+◌, ◌^◌, ◌<◌, ◌≡◌, List, some, Option, tabulate, length-tabulate,
}
use iris_mpc.Prelude.Bits.{bit_at}
use iris_mpc.Shares.Share.{Share}
use iris_mpc.Shares.Transpose.Rounds.{all_swapped}
use iris_mpc.Shares.Transpose.Bits.{IsComponent, a-IsComponent, b-IsComponent}
use iris_mpc.Shares.Transpose.Correct.{packed}
use iris_mpc.Shares.Transpose.Bounds.{all_swapped-lt, share_joined-lt}
use iris_mpc.Shares.Transpose.Join.{tabulate-AreBelow}

-- Both components of the shares are below the bound.
pub record AreWithin (n : ℕ) (f : ℕ → Share) : Type 0 where
  pub a : (i : ℕ) → (f i).a < 2 ^ n
  pub b : (i : ℕ) → (f i).b < 2 ^ n

-- Rows of `w` bits; bit `c` of row `r`, below `n`, is bit `r` of share `c`, below `w`, in both
-- components.
pub record IsTransposed (n w : ℕ) (f : ℕ → Share) (res : Option (List Share)) : Type 0 where
  pub rows : ℕ → Share
  pub made : res ≡ some (tabulate n rows)
  pub within : AreWithin w rows
  pub a : (r c : ℕ) → r < n → c < w → bit_at (rows r).a c ≡ bit_at (f c).a r
  pub b : (r c : ℕ) → r < n → c < w → bit_at (rows r).b c ≡ bit_at (f c).b r

packed-lt :
    {p : Share → ℕ}
    → IsComponent p
    → (n w d : ℕ) (f : ℕ → Share) → n * d ≡ w
    → ((i : ℕ) → p (f i) < 2 ^ n)
    → (r : ℕ) → p (packed n d f r) < 2 ^ w
packed-lt {p} is n w d f e h r =
    share_joined-lt is w n (tabulate d (λ q. f (n * q + r)))
      (tabulate-AreBelow p n d (λ q. f (n * q + r)) (λ i. h (n * i + r)))
      (rw (length-tabulate d (λ q. f (n * q + r))) e)

pub packed-AreWithin :
    (fuel n w d m : ℕ) (f : ℕ → Share)
    → n * d ≡ w
    → m < 2 ^ w
    → AreWithin n f
    → AreWithin w (all_swapped fuel w (n / 2) m (packed n d f))
packed-AreWithin fuel n w d m f e hm h = record {
  a =
      all_swapped-lt a-IsComponent w fuel m (n / 2) (packed n d f) hm
        (packed-lt a-IsComponent n w d f e h.a);
  b =
      all_swapped-lt b-IsComponent w fuel m (n / 2) (packed n d f) hm
        (packed-lt b-IsComponent n w d f e h.b);
}
