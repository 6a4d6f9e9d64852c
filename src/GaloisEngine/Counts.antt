-- ===== src/GaloisEngine/Counts.antt =====
-- What the products of masked bits and of masks count.
use iris_mpc.Prelude.{
  ℕ, zero, suc, ◌+◌, ◌-◌, ◌*◌, ◌%◌, ◌^◌, ◌≤◌, ◌≡◌, refl, Bool, true, false, not, ◌&&◌, bit_and,
  arith,
}
use iris_mpc.Prelude.Bits.{xor, to_nat}
use iris_mpc.Shares.RingElement.{wrapping_sub}
use iris_mpc.IrisCode.{IrisCode, get_bit}
use iris_mpc.GaloisEngine.{remap_index, masked_bit}
use iris_mpc.GaloisEngine.Dot.{products}

-- The number of positions, of `n` groups of indices from `i` on, at which a test holds.
unfoldable pub count : (ℕ → Bool) → ℕ → ℕ → ℕ
count p zero i = 0
count p (suc n) i =
    let f : ℕ → ℕ = λ k. to_nat (p (remap_index k)) in
    f i + f (i + 1) + f (i + 2) + f (i + 3) + count p n (i + 4)

-- Both masks are set.
abbrev pub both_set : IrisCode → IrisCode → ℕ → Bool
both_set x y k = get_bit x.mask k && get_bit y.mask k

-- Both masks are set, and the codes differ.
abbrev pub differ : IrisCode → IrisCode → ℕ → Bool
differ x y k = both_set x y k && xor (get_bit x.code k) (get_bit y.code k)

-- Both masks are set, and the codes agree.
abbrev pub agree : IrisCode → IrisCode → ℕ → Bool
agree x y k = both_set x y k && not (xor (get_bit x.code k) (get_bit y.code k))

masked : Bool → Bool → ℕ
masked c m = (to_nat m + (2 ^ 16 - 2 * bit_and (to_nat c) (to_nat m))) % 2 ^ 16

product_lem :
    (c m d n : Bool)
    → (masked c m * masked d n + to_nat ((m && n) && xor c d)) % 2 ^ 16
      ≡ to_nat ((m && n) && not (xor c d)) % 2 ^ 16
unfolding masked
product_lem true true true true = refl
product_lem true true true false = refl
product_lem true true false true = refl
product_lem true true false false = refl
product_lem true false true true = refl
product_lem true false true false = refl
product_lem true false false true = refl
product_lem true false false false = refl
product_lem false true true true = refl
product_lem false true true false = refl
product_lem false true false true = refl
product_lem false true false false = refl
product_lem false false true true = refl
product_lem false false true false = refl
product_lem false false false true = refl
product_lem false false false false = refl

module _ (x y : IrisCode) where
  one_position :
      (k : ℕ)
      → (masked_bit x.code x.mask k * masked_bit y.code y.mask k + to_nat (differ x y k)) % 2 ^ 16
        ≡ to_nat (agree x y k) % 2 ^ 16
  unfolding masked_bit wrapping_sub masked
  one_position k =
      product_lem (get_bit x.code k) (get_bit x.mask k) (get_bit y.code k) (get_bit y.mask k)

  -- The products of the masked bits count the positions where the codes agree, less those where they
  -- differ.
  pub products-counts :
      (n i : ℕ)
      → (products (masked_bit x.code x.mask) (masked_bit y.code y.mask) n i
            + count (differ x y) n i)
          % 2 ^ 16
        ≡ count (agree x y) n i % 2 ^ 16
  unfolding products count
  products-counts zero i = refl
  products-counts (suc n) i = omega (
    arith,
    one_position (remap_index i),
    one_position (remap_index (i + 1)),
    one_position (remap_index (i + 2)),
    one_position (remap_index (i + 3)),
    products-counts n (i + 4),
  )

bit_product : (m n : Bool) → to_nat m * to_nat n ≡ to_nat (m && n)
bit_product true true = refl
bit_product true false = refl
bit_product false true = refl
bit_product false false = refl

-- The products of the masks' bits count the positions where both are set.
pub products-both_set :
    (x y : IrisCode) (n i : ℕ)
    → products (λ k. to_nat (get_bit x.mask k)) (λ k. to_nat (get_bit y.mask k)) n i
      ≡ count (both_set x y) n i
unfolding products count
products-both_set x y zero i = refl
products-both_set x y (suc n) i =
    let at : (k : ℕ)
        → to_nat (get_bit x.mask k) * to_nat (get_bit y.mask k) ≡ to_nat (both_set x y k) =
      λ k. bit_product (get_bit x.mask k) (get_bit y.mask k) in
    omega (
      arith,
      at (remap_index i),
      at (remap_index (i + 1)),
      at (remap_index (i + 2)),
      at (remap_index (i + 3)),
      products-both_set x y n (i + 4),
    )

to_nat-le : (b : Bool) → to_nat b ≤ 1
to_nat-le b = ground arith

pub count-le : (p : ℕ → Bool) (n i : ℕ) → count p n i ≤ 4 * n
unfolding count
count-le p zero i = omega arith
count-le p (suc n) i = omega (
  arith,
  to_nat-le (p (remap_index i)),
  to_nat-le (p (remap_index (i + 1))),
  to_nat-le (p (remap_index (i + 2))),
  to_nat-le (p (remap_index (i + 3))),
  count-le p n (i + 4),
)
