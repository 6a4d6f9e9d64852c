-- ===== src/Protocol/Prf.antt =====
-- iris-mpc-cpu/src/protocol/prf.rs: the two generators of a party, of which it shares the one with
-- the next party and the other with the previous party.
pub mod Zero
use iris_mpc.Prelude.{ℕ, List, bit_xor}
use iris_mpc.Shares.RingElement.{wrapping_sub}
use iris_mpc.Protocol.Platform.{Platform}

pub record Prf (P : Platform) : Type 0 where
  pub my_prf : P.AesRng
  pub prev_prf : P.AesRng

module _ (P : Platform) where
  unfoldable pub new : List ℕ → List ℕ → Prf P
  new my_key next_key = record { my_prf = P.from_seed my_key; prev_prf = P.from_seed next_key }

  -- `get_my_prf().gen::<T>()` and `get_prev_prf().gen::<T>()` for a type of `k` bits.
  abbrev pub gen_my : ℕ → Prf P → ℕ × Prf P
  gen_my k prf =
      let (x, r) = P.gen k prf.my_prf in (x, record { my_prf = r; prev_prf = prf.prev_prf })

  abbrev pub gen_prev : ℕ → Prf P → ℕ × Prf P
  gen_prev k prf =
      let (x, r) = P.gen k prf.prev_prf in (x, record { my_prf = prf.my_prf; prev_prf = r })

  abbrev pub gen_rands : ℕ → Prf P → (ℕ × ℕ) × Prf P
  gen_rands k prf =
      let (a, r) = P.gen k prf.my_prf in
      let (b, q) = P.gen k prf.prev_prf in ((a, b), record { my_prf = r; prev_prf = q })

  unfoldable pub gen_zero_share : ℕ → Prf P → ℕ × Prf P
  gen_zero_share k prf = let ((a, b), prf') = gen_rands k prf in (wrapping_sub k a b, prf')

  unfoldable pub gen_binary_zero_share : ℕ → Prf P → ℕ × Prf P
  gen_binary_zero_share k prf = let ((a, b), prf') = gen_rands k prf in (bit_xor a b, prf')
