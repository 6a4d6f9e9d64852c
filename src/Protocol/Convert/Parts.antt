-- ===== src/Protocol/Convert/Parts.antt =====
-- The parts of a sharing: the parties hold binary shares of each of its three components.
use iris_mpc.Prelude.{ℕ, ◌+◌, ◌%◌, ◌^◌, ◌≡◌, ◌∙◌, refl, some}
use iris_mpc.Prelude.Bits.{bit_xor_zero, zero_bit_xor}
use iris_mpc.Id.{id0, id1, id2, to_usize, Trio}
use iris_mpc.Execution.Role.{Identity}
use iris_mpc.Shares.Share.{Share, zero_share}
use iris_mpc.Shares.Sharing.{IsSharing, IsXorSharing}
use iris_mpc.Shares.Sharing.Linear.{pow-pos}
use iris_mpc.Protocol.Platform.{Platform}
use iris_mpc.Protocol.Program.{Session}
use iris_mpc.Protocol.Run.{IsParties}
use iris_mpc.Protocol.Convert.{a2b_pre}

-- The parties' parts, number by number.
pub record Parts (k : ℕ) (x : ℕ) (q : Trio (Share × Share × Share)) : Type 0 where
  pub x1 : ℕ
  pub x2 : ℕ
  pub x3 : ℕ
  pub first : IsXorSharing k (record { p0 = q.p0.0; p1 = q.p1.0; p2 = q.p2.0 }) x1
  pub second : IsXorSharing k (record { p0 = q.p0.1; p1 = q.p1.1; p2 = q.p2.1 }) x2
  pub third : IsXorSharing k (record { p0 = q.p0.2; p1 = q.p1.2; p2 = q.p2.2 }) x3
  pub total : (x1 + x2 + x3) % 2 ^ k ≡ x

module _ {P : Platform} (ids : Trio Identity) (s : Trio (Session P)) (k : ℕ) where
  -- For three parties with shares of `x`, `a2b_pre` succeeds at every party, and its results are, one
  -- by one, binary shares of three numbers that add up to `x`, with wrap-around.
  pub a2b_pre-Parts :
      (t : Trio Share) (x : ℕ)
      → IsParties ids s
      → IsSharing k t x
      → (q : Trio (Share × Share × Share)) × (a2b_pre s.p0.boot_session t.p0 ≡ some q.p0)
        × (a2b_pre s.p1.boot_session t.p1 ≡ some q.p1)
        × (a2b_pre s.p2.boot_session t.p2 ≡ some q.p2)
        × Parts k x q
  unfolding a2b_pre to_usize zero_share
  a2b_pre-Parts t x h hs = (
    record {
      p0 = (record { a = t.p0.a; b = 0 }, record { a = 0; b = 0 }, record { a = 0; b = t.p0.b });
      p1 = (record { a = 0; b = t.p1.b }, record { a = t.p1.a; b = 0 }, record { a = 0; b = 0 });
      p2 = (record { a = 0; b = 0 }, record { a = 0; b = t.p2.b }, record { a = t.p2.a; b = 0 });
    },
    rw (h.role id0),
    rw (h.role id1),
    rw (h.role id2),
    record {
      x1 = t.p0.a;
      x2 = t.p1.a;
      x3 = t.p2.a;
      first = record {
        replicated = record {
          b0 = refl;
          b1 = hs.b1;
          b2 = refl;
          lt0 = hs.lt0;
          lt1 = pow-pos k;
          lt2 = pow-pos k;
        };
        value = bit_xor_zero _ ∙ bit_xor_zero t.p0.a;
      };
      second = record {
        replicated = record {
          b0 = refl;
          b1 = refl;
          b2 = hs.b2;
          lt0 = pow-pos k;
          lt1 = hs.lt1;
          lt2 = pow-pos k;
        };
        value = bit_xor_zero _ ∙ zero_bit_xor t.p1.a;
      };
      third = record {
        replicated = record {
          b0 = hs.b0;
          b1 = refl;
          b2 = refl;
          lt0 = pow-pos k;
          lt1 = pow-pos k;
          lt2 = hs.lt2;
        };
        value = zero_bit_xor t.p2.a;
      };
      total = hs.value;
    },
  )
