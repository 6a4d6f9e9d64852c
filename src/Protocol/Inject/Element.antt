-- ===== src/Protocol/Inject/Element.antt =====
-- One bit of the oblivious transfer: the receiver reads the message that the bits choose, and the
-- three parties have components of the shared bit.
use iris_mpc.Prelude.{ℕ, zero, suc, ◌^◌, ◌<◌, ◌≡◌, bit_xor, arith}
use iris_mpc.Prelude.Bits.{bit_xor_cancel}
use iris_mpc.Id.{Trio}
use iris_mpc.Shares.RingElement.{wrapping_add, wrapping_sub}
use iris_mpc.Shares.Bit
use iris_mpc.Shares.Share.{Share}
use iris_mpc.Shares.Sharing.{IsXorSharing}
use iris_mpc.Shares.Sharing.Linear.{mod-lt-pow}
use iris_mpc.Shares.Sharing.Additive.{IsAdditive}
use iris_mpc.Protocol.Inject.{from_bit, chosen, message0, message1, unmasked}

-- The bits of the three parties, and the message that the receiver reads.
transfer_lem :
    (a0 a1 a2 w0 w1 c : ℕ)
    → a0 < 2
    → a1 < 2
    → a2 < 2
    → unmasked a0
        (chosen a0 w0 w1)
        (message0 (record { a = a2; b = a1 }) c w0)
        (message1 (record { a = a2; b = a1 }) c w1)
      ≡ wrapping_sub 16 (bit_xor (bit_xor a0 a1) a2) c
unfolding unmasked chosen message0 message1 from_bit Bit.convert
transfer_lem zero zero zero w0 w1 c p q r = bit_xor_cancel w0 _
transfer_lem zero zero (suc zero) w0 w1 c p q r = bit_xor_cancel w0 _
transfer_lem zero (suc zero) zero w0 w1 c p q r = bit_xor_cancel w0 _
transfer_lem zero (suc zero) (suc zero) w0 w1 c p q r = bit_xor_cancel w0 _
transfer_lem (suc zero) zero zero w0 w1 c p q r = bit_xor_cancel w1 _
transfer_lem (suc zero) zero (suc zero) w0 w1 c p q r = bit_xor_cancel w1 _
transfer_lem (suc zero) (suc zero) zero w0 w1 c p q r = bit_xor_cancel w1 _
transfer_lem (suc zero) (suc zero) (suc zero) w0 w1 c p q r = bit_xor_cancel w1 _
transfer_lem (suc (suc a)) a1 a2 w0 w1 c p q r = absurd (omega arith)
transfer_lem zero (suc (suc a)) a2 w0 w1 c p q r = absurd (omega arith)
transfer_lem (suc zero) (suc (suc a)) a2 w0 w1 c p q r = absurd (omega arith)
transfer_lem zero zero (suc (suc a)) w0 w1 c p q r = absurd (omega arith)
transfer_lem zero (suc zero) (suc (suc a)) w0 w1 c p q r = absurd (omega arith)
transfer_lem (suc zero) zero (suc (suc a)) w0 w1 c p q r = absurd (omega arith)
transfer_lem (suc zero) (suc zero) (suc (suc a)) w0 w1 c p q r = absurd (omega arith)

-- The receiver, the helper and the sender hold the bits of one sharing.
pub transferred :
    (u : Trio Share) (x w0 w1 c : ℕ)
    → IsXorSharing 1 u x
    → unmasked u.p1.b (chosen u.p0.a w0 w1) (message0 u.p2 c w0) (message1 u.p2 c w1)
      ≡ wrapping_sub 16 x c
unfolding message0 message1
transferred u x w0 w1 c h =
    rw (h.b1, h.b2, ← h.value) (transfer_lem u.p0.a u.p1.a u.p2.a w0 w1 c h.lt0 h.lt1 h.lt2)

-- A number less two fresh ones, and the fresh ones.
pub fresh-IsAdditive :
    (x c2 c3 : ℕ)
    → x < 2 ^ 16
    → c2 < 2 ^ 16
    → c3 < 2 ^ 16
    → IsAdditive 16 (record { p0 = wrapping_sub 16 x (wrapping_add 16 c3 c2); p1 = c2; p2 = c3 }) x
unfolding wrapping_add wrapping_sub
fresh-IsAdditive x c2 c3 l l2 l3 = record {
  lt0 = mod-lt-pow 16 _;
  lt1 = l2;
  lt2 = l3;
  value = omega arith;
}
