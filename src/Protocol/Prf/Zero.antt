-- ===== src/Protocol/Prf/Zero.antt =====
-- Shares of zero: what the three parties draw together from generators that are in step.
use iris_mpc.Prelude.{ℕ, ◌≡◌, bit_xor}
use iris_mpc.Id.{Trio}
use iris_mpc.Shares.RingElement.{wrapping_sub}
use iris_mpc.Protocol.Platform.{Platform}
use iris_mpc.Protocol.Prf.{Prf, gen_zero_share, gen_binary_zero_share}

-- Each party's second generator is in the state of the previous party's first one.
pub record IsSynced {P : Platform} (prf : Trio (Prf P)) : Type 0 where
  pub prev0 : prf.p0.prev_prf ≡ prf.p2.my_prf
  pub prev1 : prf.p1.prev_prf ≡ prf.p0.my_prf
  pub prev2 : prf.p2.prev_prf ≡ prf.p1.my_prf

module _ (P : Platform) (k : ℕ) where
  -- A draw of both generators.
  abbrev next_prf : Prf P → Prf P
  next_prf prf = record { my_prf = (P.gen k prf.my_prf).1; prev_prf = (P.gen k prf.prev_prf).1 }

  -- The parties' numbers `r`, each of its own generator, and the generators that follow.
  abbrev pub drawn : Trio (Prf P) → Trio ℕ
  drawn prf = record {
    p0 = (P.gen k prf.p0.my_prf).0;
    p1 = (P.gen k prf.p1.my_prf).0;
    p2 = (P.gen k prf.p2.my_prf).0;
  }

  abbrev pub drawn_after : Trio (Prf P) → Trio (Prf P)
  drawn_after prf = record { p0 = next_prf prf.p0; p1 = next_prf prf.p1; p2 = next_prf prf.p2 }

  pub drawn_after-IsSynced : (prf : Trio (Prf P)) → IsSynced prf → IsSynced (drawn_after prf)
  drawn_after-IsSynced prf h = record { prev0 = rw h.prev0; prev1 = rw h.prev1; prev2 = rw h.prev2 }

  module _ (prf : Trio (Prf P)) (h : IsSynced prf) where
    -- The additive shares of zero are the differences of the numbers and the previous party's.
    pub gen_zero_share-drawn :
        let r = drawn prf in
        let q = drawn_after prf in
        (gen_zero_share P k prf.p0 ≡ (wrapping_sub k r.p0 r.p2, q.p0))
        × (gen_zero_share P k prf.p1 ≡ (wrapping_sub k r.p1 r.p0, q.p1))
        × (gen_zero_share P k prf.p2 ≡ (wrapping_sub k r.p2 r.p1, q.p2))
    unfolding gen_zero_share
    gen_zero_share-drawn = (rw h.prev0, rw h.prev1, rw h.prev2)

    -- The binary shares of zero are their exclusive ors.
    pub gen_binary_zero_share-drawn :
        let r = drawn prf in
        let q = drawn_after prf in
        (gen_binary_zero_share P k prf.p0 ≡ (bit_xor r.p0 r.p2, q.p0))
        × (gen_binary_zero_share P k prf.p1 ≡ (bit_xor r.p1 r.p0, q.p1))
        × (gen_binary_zero_share P k prf.p2 ≡ (bit_xor r.p2 r.p1, q.p2))
    unfolding gen_binary_zero_share
    gen_binary_zero_share-drawn = (rw h.prev0, rw h.prev1, rw h.prev2)
