-- ===== src/Protocol/Inject/Loops.antt =====
-- The three parties' loops of the bit injection, taken together.
use iris_mpc.Prelude.{ℕ, ◌^◌, ◌<◌, ◌≡◌, refl, ap, List, [], ◌∷◌, map, AllPairs, nil, cons, arith}
use iris_mpc.Prelude.Bits.{bit_xor-lt}
use iris_mpc.Id.{Trio, columns}
use iris_mpc.Shares.RingElement.{wrapping_add, wrapping_sub}
use iris_mpc.Shares.Share.{Share, new}
use iris_mpc.Shares.Sharing.{IsXorSharing}
use iris_mpc.Shares.Sharing.Additive.{IsAdditive}
use iris_mpc.Shares.Sharing.Vectors.{replicate}
use iris_mpc.Protocol.Platform.{Platform}
use iris_mpc.Protocol.Prf.{Prf}
use iris_mpc.Protocol.Prf.Zero.{IsSynced}
use iris_mpc.Protocol.Inject.{
  chosen, message0, message1, helper_loop, receiver_loop, sender_loop, set_components,
}
use iris_mpc.Protocol.Inject.Element.{transferred, fresh-IsAdditive}

-- A component that is still to be received.
abbrev pub pending : Trio ℕ → Share
pending z = new 0 z.p2

pub set_components_lem :
    (zs : List (Trio ℕ))
    → set_components (map pending zs) (map (λ z. z.p0) zs) ≡ (columns (map replicate zs)).p0
unfolding set_components new
set_components_lem [] = refl
set_components_lem (z ∷ zs) = ap (◌∷◌ (new z.p0 z.p2)) (set_components_lem zs)

bit-lt : (u : Trio Share) (x : ℕ) → IsXorSharing 1 u x → x < 2 ^ 16
bit-lt u x h = omega (arith, h.value, bit_xor-lt 1 _ _ (bit_xor-lt 1 _ _ h.lt0 h.lt1) h.lt2)

module _ (P : Platform) where
  -- What the loops give: components of the bits, the vectors that are sent, and the shares.
  pub record Transfer (prf : Trio (Prf P)) (us : List (Trio Share)) (xs : List ℕ) : Type 0 where
    pub words : List (Trio ℕ)
    pub wc : List ℕ
    pub m0 : List ℕ
    pub m1 : List ℕ
    pub after : Trio (Prf P)
    pub synced : IsSynced after
    pub components : AllPairs (IsAdditive 16) words xs
    pub helper : helper_loop P (map (λ t. t.p0) us) prf.p0 ≡ ((wc, map pending words), after.p0)
    pub receiver :
        receiver_loop P (map (λ t. t.p1) us) wc m0 m1 prf.p1
        ≡ ((map (λ z. z.p0) words, (columns (map replicate words)).p1), after.p1)
    pub sender :
        sender_loop P (map (λ t. t.p2) us) prf.p2
        ≡ ((m0, m1, (columns (map replicate words)).p2), after.p2)

  -- The draws for one bit: the receiver one, the sender four, and the helper three.
  module _ (prf : Trio (Prf P)) where
    c2 : ℕ × P.AesRng
    c2 = P.gen 16 prf.p1.my_prf

    c3 : ℕ × P.AesRng
    c3 = P.gen 16 prf.p2.my_prf

    w0 : ℕ × P.AesRng
    unfolding c3
    w0 = P.gen 16 c3.1

    w1 : ℕ × P.AesRng
    unfolding w0
    w1 = P.gen 16 w0.1

    abbrev drawn : Trio (Prf P)
    drawn = record {
      p0 = record { my_prf = prf.p0.my_prf; prev_prf = w1.1 };
      p1 = record { my_prf = c2.1; prev_prf = prf.p1.prev_prf };
      p2 = record { my_prf = w1.1; prev_prf = c2.1 };
    }

    drawn-IsSynced : IsSynced prf → IsSynced drawn
    drawn-IsSynced h = record { prev0 = refl; prev1 = h.prev1; prev2 = refl }

    -- One round of the loops.
    round_lem :
        {u : Trio Share} {us : List (Trio Share)} {x : ℕ} {xs : List ℕ}
        → IsSynced prf
        → IsXorSharing 1 u x
        → Transfer drawn us xs
        → Transfer prf (u ∷ us) (x ∷ xs)
    unfolding helper_loop receiver_loop sender_loop c2 c3 w0 w1 new
    round_lem {u} {us} {x} h hu rest =
        let c = wrapping_add 16 c3.0 c2.0 in
        record {
          words = record { p0 = wrapping_sub 16 x c; p1 = c2.0; p2 = c3.0 } ∷ rest.words;
          wc = chosen u.p0.a w0.0 w1.0 ∷ rest.wc;
          m0 = message0 u.p2 c w0.0 ∷ rest.m0;
          m1 = message1 u.p2 c w1.0 ∷ rest.m1;
          after = rest.after;
          synced = rest.synced;
          components =
              cons (fresh-IsAdditive x c2.0 c3.0 (bit-lt u x hu) (P.gen-lt 16 _) (P.gen-lt 16 _))
                rest.components;
          helper = rw (h.prev0, rest.helper);
          receiver = rw (transferred u x w0.0 w1.0 c hu, rest.receiver);
          sender = rw (h.prev2, rest.sender);
        }

  pub transfer :
      {us : List (Trio Share)} {xs : List ℕ} (prf : Trio (Prf P))
      → IsSynced prf
      → AllPairs (IsXorSharing 1) us xs
      → Transfer prf us xs
  unfolding helper_loop receiver_loop sender_loop
  transfer prf h nil = record {
    words = [];
    wc = [];
    m0 = [];
    m1 = [];
    after = prf;
    synced = h;
    components = nil;
    helper = refl;
    receiver = refl;
    sender = refl;
  }
  transfer prf h (cons hu hus) =
      round_lem prf h hu (transfer (drawn prf) (drawn-IsSynced prf h) hus)
