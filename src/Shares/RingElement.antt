-- ===== src/Shares/RingElement.antt =====
-- iris-mpc-cpu/src/shares/int_ring.rs and ring_impl.rs: integers of `k` bits with wrap-around.
-- A value is a number below `2 ^ k`; `k` is the constant `K` of the source's `IntRing2k`.
use iris_mpc.Prelude.{
  ℕ, zero, suc, ◌+◌, ◌-◌, ◌*◌, ◌/◌, ◌%◌, ◌^◌, Bool, List, [], ◌∷◌, ◌==◌, bit_and,
}

unfoldable pub wrapping_add : ℕ → ℕ → ℕ → ℕ
wrapping_add k a b = (a + b) % 2 ^ k

unfoldable pub wrapping_sub : ℕ → ℕ → ℕ → ℕ
wrapping_sub k a b = (a + (2 ^ k - b)) % 2 ^ k

unfoldable pub wrapping_mul : ℕ → ℕ → ℕ → ℕ
wrapping_mul k a b = (a * b) % 2 ^ k

unfoldable pub wrapping_neg : ℕ → ℕ → ℕ
wrapping_neg k a = (2 ^ k - a) % 2 ^ k

-- The shifts take their distance modulo the width.
unfoldable pub wrapping_shl : ℕ → ℕ → ℕ → ℕ
wrapping_shl k a n = (a * 2 ^ (n % k)) % 2 ^ k

unfoldable pub wrapping_shr : ℕ → ℕ → ℕ → ℕ
wrapping_shr k a n = a / 2 ^ (n % k)

unfoldable pub not : ℕ → ℕ → ℕ
not k a = 2 ^ k - 1 - a

-- `rhs` of the remainder is not zero: the source panics there.
unfoldable pub rem : ℕ → ℕ → ℕ
rem a rhs = a % rhs

unfoldable pub get_bit : ℕ → ℕ → ℕ
get_bit a index = bit_and (a / 2 ^ index) 1

-- The bit as an element of `RingElement<Bit>`.
unfoldable pub get_bit_as_bit : ℕ → ℕ → ℕ
get_bit_as_bit a index = elim (bit_and (a / 2 ^ index) 1 == 1) [ Bool.true ↦ 1 | Bool.false ↦ 0 ]

-- `BitIter` from `index` on, with `left` bits to go.
unfoldable pub bit_iter_from : ℕ → ℕ → ℕ → List ℕ
bit_iter_from zero index a = []
bit_iter_from (suc left) index a = get_bit_as_bit a index ∷ bit_iter_from left (index + 1) a

unfoldable pub bit_iter : ℕ → ℕ → List ℕ
unfolding bit_iter_from get_bit_as_bit
bit_iter k a = bit_iter_from k 0 a
