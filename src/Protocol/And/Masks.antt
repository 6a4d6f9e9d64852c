-- ===== src/Protocol/And/Masks.antt =====
-- The three parties' loops over masked local ANDs, taken together.
use iris_mpc.Prelude.{
  ℕ, ◌^◌, ◌<◌, ◌≡◌, ◌∙◌, refl, List, [], ◌∷◌, map, zip_with, bit_and, bit_xor, AllPairs, nil, cons,
}
use iris_mpc.Prelude.Bits.{bit_xor-lt}
use iris_mpc.Id.{Trio}
use iris_mpc.Shares.Share.{Share, and_local}
use iris_mpc.Shares.Sharing.{IsXorSharing}
use iris_mpc.Shares.Sharing.Xor.{and_local-xor, and_local-lt_three, zero_three}
use iris_mpc.Protocol.Platform.{Platform}
use iris_mpc.Protocol.Prf.{Prf}
use iris_mpc.Protocol.Prf.Zero.{
  IsSynced, drawn, drawn_after, drawn_after-IsSynced, gen_binary_zero_share-drawn,
}
use iris_mpc.Protocol.And.{masked_ands}

-- Three words, one of each party, that are components of a word `x` of `k` bits.
pub record IsComponents (k : ℕ) (z : Trio ℕ) (x : ℕ) : Type 0 where
  pub lt0 : z.p0 < 2 ^ k
  pub lt1 : z.p1 < 2 ^ k
  pub lt2 : z.p2 < 2 ^ k
  pub value : bit_xor (bit_xor z.p0 z.p1) z.p2 ≡ x

module _ (P : Platform) (k : ℕ) where
  -- What the loops of the three parties give.
  pub record LoopsAgree (prf : Trio (Prf P)) (us vs : List (Trio Share)) (xs : List ℕ)
      : Type 0 where
    pub words : List (Trio ℕ)
    pub after : Trio (Prf P)
    pub synced : IsSynced after
    pub components : AllPairs (IsComponents k) words xs
    pub loop0 :
        masked_ands P k (map (λ t. t.p0) us) (map (λ t. t.p0) vs) prf.p0
        ≡ (map (λ z. z.p0) words, after.p0)
    pub loop1 :
        masked_ands P k (map (λ t. t.p1) us) (map (λ t. t.p1) vs) prf.p1
        ≡ (map (λ z. z.p1) words, after.p1)
    pub loop2 :
        masked_ands P k (map (λ t. t.p2) us) (map (λ t. t.p2) vs) prf.p2
        ≡ (map (λ z. z.p2) words, after.p2)

  -- One round of the loops.
  masked_and_lem :
      {u v : Trio Share} {us vs : List (Trio Share)} {x y : ℕ} {xs : List ℕ} (prf : Trio (Prf P))
      → IsSynced prf
      → IsXorSharing k u x
      → IsXorSharing k v y
      → LoopsAgree (drawn_after P k prf) us vs xs
      → LoopsAgree prf (u ∷ us) (v ∷ vs) (bit_and x y ∷ xs)
  unfolding masked_ands
  masked_and_lem {u} {v} prf h hu hv rest =
      let r = drawn P k prf in
      let (e0, e1, e2) = gen_binary_zero_share-drawn P k prf h in
      let (l0, l1, l2) = and_local-lt_three k hu hv in
      record {
        words =
            record {
              p0 = bit_xor (and_local u.p0 v.p0) (bit_xor r.p0 r.p2);
              p1 = bit_xor (and_local u.p1 v.p1) (bit_xor r.p1 r.p0);
              p2 = bit_xor (and_local u.p2 v.p2) (bit_xor r.p2 r.p1);
            }
            ∷ rest.words;
        after = rest.after;
        synced = rest.synced;
        components =
            cons
              (record {
                lt0 = bit_xor-lt k _ _ l0 (bit_xor-lt k _ _ (P.gen-lt k _) (P.gen-lt k _));
                lt1 = bit_xor-lt k _ _ l1 (bit_xor-lt k _ _ (P.gen-lt k _) (P.gen-lt k _));
                lt2 = bit_xor-lt k _ _ l2 (bit_xor-lt k _ _ (P.gen-lt k _) (P.gen-lt k _));
                value = zero_three _ _ _ r.p0 r.p1 r.p2 ∙ and_local-xor k hu hv;
              })
              rest.components;
        loop0 = rw (e0, rest.loop0);
        loop1 = rw (e1, rest.loop1);
        loop2 = rw (e2, rest.loop2);
      }

  pub masked_ands_lem :
      {us vs : List (Trio Share)} {xs ys : List ℕ} (prf : Trio (Prf P))
      → IsSynced prf
      → AllPairs (IsXorSharing k) us xs
      → AllPairs (IsXorSharing k) vs ys
      → LoopsAgree prf us vs (zip_with bit_and xs ys)
  unfolding masked_ands
  masked_ands_lem prf h nil hv = record {
    words = [];
    after = prf;
    synced = h;
    components = nil;
    loop0 = refl;
    loop1 = refl;
    loop2 = refl;
  }
  masked_ands_lem prf h (cons hu hus) nil = record {
    words = [];
    after = prf;
    synced = h;
    components = nil;
    loop0 = refl;
    loop1 = refl;
    loop2 = refl;
  }
  masked_ands_lem prf h (cons hu hus) (cons hv hvs) =
      masked_and_lem prf h hu hv
        (masked_ands_lem (drawn_after P k prf) (drawn_after-IsSynced P k prf h) hus hvs)
