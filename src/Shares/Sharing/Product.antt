-- ===== src/Shares/Sharing/Product.antt =====
-- The three local products are components of the product of two shared values.
use native.Mathlib.Nat.{mod-add-mod}
use iris_mpc.Prelude.{ℕ, ◌+◌, ◌*◌, ◌%◌, ◌^◌, ◌≡◌, ◌∙◌, ap, sym, arith}
use iris_mpc.Prelude.Modular.{mod_three, mod-mul-mod, mul-mod-mod}
use iris_mpc.Id.{Trio}
use iris_mpc.Shares.RingElement.{wrapping_add, wrapping_mul}
use iris_mpc.Shares.Share.{Share, mul_local}
use iris_mpc.Shares.Sharing.{IsSharing}

module _ (m : ℕ) where
  product_three :
      (x0 x1 x2 y0 y1 y2 : ℕ)
      → (((x0 * y0 + x2 * y0) + x0 * y2) % m
            + ((x1 * y1 + x0 * y1) + x1 * y0) % m
            + ((x2 * y2 + x1 * y2) + x2 * y1) % m)
          % m
        ≡ ((x0 + x1 + x2) % m * ((y0 + y1 + y2) % m)) % m
  product_three x0 x1 x2 y0 y1 y2 =
      mod_three m (x0 * y0 + x2 * y0 + x0 * y2) (x1 * y1 + x0 * y1 + x1 * y0)
        (x2 * y2 + x1 * y2 + x2 * y1)
      ∙ ap (λ t. t % m) (omega arith)
      ∙ sym (mod-mul-mod (x0 + x1 + x2) (y0 + y1 + y2) m)
      ∙ sym (mul-mod-mod ((x0 + x1 + x2) % m) (y0 + y1 + y2) m)

  -- The order of reductions in one local product.
  local_product : (x y z : ℕ) → ((x % m + y % m) % m + z % m) % m ≡ (x + y + z) % m
  local_product x y z = mod-add-mod (x % m + y % m) m (z % m) ∙ mod_three m x y z

-- The local product, reduced once.
pub mul_local_lem :
    (k : ℕ) (u v : Share) → mul_local k u v ≡ (u.a * v.a + u.b * v.a + u.a * v.b) % 2 ^ k
unfolding mul_local wrapping_add wrapping_mul
mul_local_lem k u v = local_product (2 ^ k) (u.a * v.a) (u.b * v.a) (u.a * v.b)

module _ (k : ℕ) {s t : Trio Share} {x y : ℕ} where
  -- The parties' local products of replicated shares of `x` and of `y` add up to the wrapped product.
  pub mul_local-sum :
      IsSharing k s x
      → IsSharing k t y
      → (mul_local k s.p0 t.p0 + mul_local k s.p1 t.p1 + mul_local k s.p2 t.p2) % 2 ^ k
        ≡ wrapping_mul k x y
  unfolding wrapping_mul
  mul_local-sum hs ht =
      rw
        (
          ← hs.value,
          ← ht.value,
          mul_local_lem k s.p0 t.p0,
          mul_local_lem k s.p1 t.p1,
          mul_local_lem k s.p2 t.p2,
          hs.b0,
          hs.b1,
          hs.b2,
          ht.b0,
          ht.b1,
          ht.b2,
        )
        (product_three (2 ^ k) s.p0.a s.p1.a s.p2.a t.p0.a t.p1.a t.p2.a)
