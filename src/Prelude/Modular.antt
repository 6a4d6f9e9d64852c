-- ===== src/Prelude/Modular.antt =====
-- Congruence modulo a number, for the wrap-around of machine integers.
use Prim.Native.Nat.{ℕ, ◌<◌, ◌+◌, ◌-◌, ◌*◌, ◌/◌, ◌%◌}
use mathlib.Core.Path.{◌≡◌, sym, ◌∙◌, ap}
use native.Mathlib.Omega.{arith}
use native.Mathlib.Nat.{
  add-mul-mod_self_right, mul_comm, div-add-mod, mod-add-mod, add-mod-mod, add-mod, mod-lt,
}

-- Numbers that differ by multiples of `m` have the same remainder.
pub mod-eq_of_multiples : (m u v x y : ℕ) → x + u * m ≡ y + v * m → x % m ≡ y % m
mod-eq_of_multiples m u v x y e =
    sym (add-mul-mod_self_right x u m) ∙ ap (λ t. t % m) e ∙ add-mul-mod_self_right y v m

pub mul-mod-mod : (a b m : ℕ) → (a * (b % m)) % m ≡ (a * b) % m
mul-mod-mod a b m =
    mod-eq_of_multiples m (a * (b / m)) 0 (a * (b % m)) (a * b) (grind (arith, div-add-mod b m))

pub mod-mul-mod : (a b m : ℕ) → ((a % m) * b) % m ≡ (a * b) % m
mod-mul-mod a b m = rw (mul_comm (a % m) b, mul_comm a b) (mul-mod-mod b a m)

pub ruleset mod_laws = (mod-add-mod, add-mod-mod, mul-mod-mod, mod-mul-mod)

-- Equal remainders after adding the same.
pub add-mod_cancel : (m c x y : ℕ) → (x + c) % m ≡ (y + c) % m → x % m ≡ y % m
add-mod_cancel m c x y e =
    mod-eq_of_multiples m ((y + c) / m) ((x + c) / m) x y
      (omega (arith, div-add-mod (x + c) m, div-add-mod (y + c) m))

-- The laws that sums of three components need.
module _ (m : ℕ) where
  pub mod_three : (x y z : ℕ) → (x % m + y % m + z % m) % m ≡ (x + y + z) % m
  mod_three x y z =
      mod-eq_of_multiples m (x / m + y / m + z / m) 0 (x % m + y % m + z % m) (x + y + z)
        (omega (arith, div-add-mod x m, div-add-mod y m, div-add-mod z m))

  module _ (x0 x1 x2 y0 y1 y2 : ℕ) where
    pub add_three :
        ((x0 + y0) % m + (x1 + y1) % m + (x2 + y2) % m) % m
        ≡ ((x0 + x1 + x2) % m + (y0 + y1 + y2) % m) % m
    add_three =
        mod_three (x0 + y0) (x1 + y1) (x2 + y2)
        ∙ ap (λ t. t % m) (omega arith)
        ∙ add-mod (x0 + x1 + x2) (y0 + y1 + y2) m

    pub sub_three :
        0 < m
        → y0 < m
        → y1 < m
        → y2 < m
        → ((x0 + (m - y0)) % m + (x1 + (m - y1)) % m + (x2 + (m - y2)) % m) % m
          ≡ ((x0 + x1 + x2) % m + (m - (y0 + y1 + y2) % m)) % m
    sub_three h l0 l1 l2 =
        mod_three (x0 + (m - y0)) (x1 + (m - y1)) (x2 + (m - y2))
        ∙ mod-eq_of_multiples m ((y0 + y1 + y2) / m) 2 _ (x0 + x1 + x2 + (m - (y0 + y1 + y2) % m))
            (omega (arith, div-add-mod (y0 + y1 + y2) m, mod-lt (y0 + y1 + y2) h))
        ∙ sym (mod-add-mod (x0 + x1 + x2) m (m - (y0 + y1 + y2) % m))

  module _ (x0 x1 x2 c : ℕ) where
    pub mul_three : ((x0 * c) % m + (x1 * c) % m + (x2 * c) % m) % m ≡ ((x0 + x1 + x2) % m * c) % m
    mul_three =
        mod_three (x0 * c) (x1 * c) (x2 * c)
        ∙ ap (λ t. t % m) (omega arith)
        ∙ sym (mod-mul-mod (x0 + x1 + x2) c m)

    pub shift_three : ((x0 + c) % m + x1 + x2) % m ≡ ((x0 + x1 + x2) % m + c) % m
    shift_three =
        mod-eq_of_multiples m ((x0 + c) / m) 0 _ (x0 + x1 + x2 + c)
          (omega (arith, div-add-mod (x0 + c) m))
        ∙ sym (mod-add-mod (x0 + x1 + x2) m c)
