-- ===== src/Shares/Share.antt =====
-- iris-mpc-cpu/src/shares/share.rs: one party's two components of a replicated share, and what the
-- party does with it alone. `k` is the width of the ring.
use iris_mpc.Prelude.{ℕ, zero, suc, ◌&&◌, Bool, ◌==◌, bit_and, bit_xor, Option, none, some}
use iris_mpc.Id.{PartyId, id0, id1, id2}
use iris_mpc.Execution.Role.{Role}
use iris_mpc.Shares.RingElement
use iris_mpc.Shares.RingElement.{
  wrapping_add, wrapping_sub, wrapping_mul, wrapping_neg, wrapping_shl, wrapping_shr,
}

pub record Share : Type 0 where
  pub a : ℕ
  pub b : ℕ

unfoldable pub new : ℕ → ℕ → Share
new a b = record { a = a; b = b }

unfoldable pub add_assign_const : ℕ → Share → ℕ → PartyId → Share
add_assign_const k s other id0 = record s { a = wrapping_add k s.a other }
add_assign_const k s other id1 = record s { b = wrapping_add k s.b other }
add_assign_const k s other id2 = s

-- `none` is `unimplemented!()`.
unfoldable pub add_assign_const_role : ℕ → Share → ℕ → Role → Option Share
add_assign_const_role k s other zero = some (record s { a = wrapping_add k s.a other })
add_assign_const_role k s other (suc zero) = some (record s { b = wrapping_add k s.b other })
add_assign_const_role k s other (suc (suc zero)) = some s
add_assign_const_role k s other (suc (suc (suc r))) = none

unfoldable pub get_ab : Share → ℕ × ℕ
get_ab s = (s.a, s.b)

unfoldable pub add : ℕ → Share → Share → Share
add k s t = record { a = wrapping_add k s.a t.a; b = wrapping_add k s.b t.b }

unfoldable pub sub : ℕ → Share → Share → Share
sub k s t = record { a = wrapping_sub k s.a t.a; b = wrapping_sub k s.b t.b }

-- By a public ring element.
unfoldable pub mul : ℕ → Share → ℕ → Share
mul k s rhs = record { a = wrapping_mul k s.a rhs; b = wrapping_mul k s.b rhs }

-- Only the local part of the multiplication of two shares.
unfoldable pub mul_local : ℕ → Share → Share → ℕ
mul_local k s t =
    wrapping_add k (wrapping_add k (wrapping_mul k s.a t.a) (wrapping_mul k s.b t.a))
      (wrapping_mul k s.a t.b)

unfoldable pub xor : Share → Share → Share
xor s t = record { a = bit_xor s.a t.a; b = bit_xor s.b t.b }

-- Only the local part of the AND of two shares.
unfoldable pub and_local : Share → Share → ℕ
and_local s t = bit_xor (bit_xor (bit_and s.a t.a) (bit_and s.b t.a)) (bit_and s.a t.b)

-- By a public ring element.
unfoldable pub and : Share → ℕ → Share
and s rhs = record { a = bit_and s.a rhs; b = bit_and s.b rhs }

unfoldable pub zero_share : Share
zero_share = record { a = 0; b = 0 }

unfoldable pub is_zero : Share → Bool
is_zero s = s.a == 0 && s.b == 0

unfoldable pub neg : ℕ → Share → Share
neg k s = record { a = wrapping_neg k s.a; b = wrapping_neg k s.b }

unfoldable pub not : ℕ → Share → Share
not k s = record { a = RingElement.not k s.a; b = RingElement.not k s.b }

unfoldable pub shr : ℕ → Share → ℕ → Share
shr k s rhs = record { a = wrapping_shr k s.a rhs; b = wrapping_shr k s.b rhs }

unfoldable pub shl : ℕ → Share → ℕ → Share
shl k s rhs = record { a = wrapping_shl k s.a rhs; b = wrapping_shl k s.b rhs }

-- A Hamming distance, not yet divided: the dot products of the codes and of the masks.
pub record DistanceShare : Type 0 where
  pub code_dot : Share
  pub mask_dot : Share
