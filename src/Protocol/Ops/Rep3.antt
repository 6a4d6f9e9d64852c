-- ===== src/Protocol/Ops/Rep3.antt =====
-- `galois_ring_to_rep3` turns numbers that add up into replicated shares of the sums.
use iris_mpc.Prelude.{ℕ, ◌≡◌, refl, List, [], ◌∷◌, map, AllPairs, nil, cons}
use iris_mpc.Id.{id0, id1, id2, next_id, prev_id, Trio, at, map_trio, zip_trio, columns}
use iris_mpc.Execution.Role.{Identity}
use iris_mpc.Network.Value.{vec_ring16}
use iris_mpc.Shares.RingElement.{wrapping_add}
use iris_mpc.Shares.Share.{Share}
use iris_mpc.Shares.VecShare.{from_ab}
use iris_mpc.Shares.Sharing.{IsSharing}
use iris_mpc.Shares.Sharing.Additive.{IsAdditive, masks, masked-IsAdditive, replicate-IsSharing}
use iris_mpc.Shares.Sharing.Vectors.{replicate, from_ab-columns}
use iris_mpc.Protocol.Platform.{Platform}
use iris_mpc.Protocol.Prf.{Prf}
use iris_mpc.Protocol.Prf.Zero.{
  IsSynced, drawn, drawn_after, drawn_after-IsSynced, gen_zero_share-drawn,
}
use iris_mpc.Protocol.Program.{Session, ok_or_fail}
use iris_mpc.Protocol.Run.{IsReady, Yields, exchange, setups, with_setups, with_setups-IsReady}
use iris_mpc.Protocol.Ops.{galois_ring_to_rep3, masked_items, expect_vec_ring16}

module _ (P : Platform) where
  -- What the three parties' loops give.
  record ItemsAgree (prf : Trio (Prf P)) (zs : List (Trio ℕ)) (xs : List ℕ) : Type 0 where
    items : List (Trio ℕ)
    after : Trio (Prf P)
    synced : IsSynced after
    components : AllPairs (IsAdditive 16) items xs
    loop0 : masked_items P (map (λ z. z.p0) zs) prf.p0 ≡ (map (λ z. z.p0) items, after.p0)
    loop1 : masked_items P (map (λ z. z.p1) zs) prf.p1 ≡ (map (λ z. z.p1) items, after.p1)
    loop2 : masked_items P (map (λ z. z.p2) zs) prf.p2 ≡ (map (λ z. z.p2) items, after.p2)

  masked_item_lem :
      {z : Trio ℕ} {zs : List (Trio ℕ)} {x : ℕ} {xs : List ℕ} (prf : Trio (Prf P))
      → IsSynced prf
      → IsAdditive 16 z x
      → ItemsAgree (drawn_after P 16 prf) zs xs
      → ItemsAgree prf (z ∷ zs) (x ∷ xs)
  unfolding masked_items
  masked_item_lem {z} prf h c rest =
      let r = drawn P 16 prf in
      let (e0, e1, e2) = gen_zero_share-drawn P 16 prf h in
      record {
        items = zip_trio (wrapping_add 16) (masks 16 r) z ∷ rest.items;
        after = rest.after;
        synced = rest.synced;
        components =
            cons (masked-IsAdditive 16 r z (P.gen-lt 16 _) (P.gen-lt 16 _) (P.gen-lt 16 _) c)
              rest.components;
        loop0 = rw (e0, rest.loop0);
        loop1 = rw (e1, rest.loop1);
        loop2 = rw (e2, rest.loop2);
      }

  masked_items_lem :
      {zs : List (Trio ℕ)} {xs : List ℕ} (prf : Trio (Prf P))
      → IsSynced prf
      → AllPairs (IsAdditive 16) zs xs
      → ItemsAgree prf zs xs
  unfolding masked_items
  masked_items_lem prf h nil = record {
    items = [];
    after = prf;
    synced = h;
    components = nil;
    loop0 = refl;
    loop1 = refl;
    loop2 = refl;
  }
  masked_items_lem prf h (cons c cs) =
      masked_item_lem prf h c
        (masked_items_lem (drawn_after P 16 prf) (drawn_after-IsSynced P 16 prf h) cs)

pub replicate-all :
    (k : ℕ) {zs : List (Trio ℕ)} {xs : List ℕ}
    → AllPairs (IsAdditive k) zs xs
    → AllPairs (IsSharing k) (map replicate zs) xs
replicate-all k nil = nil
replicate-all k (cons c cs) = cons (replicate-IsSharing k c) (replicate-all k cs)

-- The three vectors are those of shares of the numbers `xs`.
abbrev pub AreShares : ℕ → List ℕ → Trio (List Share) → Type 0
AreShares k xs v = (ts : List (Trio Share)) × (v ≡ columns ts) × AllPairs (IsSharing k) ts xs

module _ {P : Platform} (R : Type 0) (ids : Trio Identity) (s : Trio (Session P)) where
  -- Three ready parties with numbers of 16 bits that add up to `xs` position by position end
  -- `galois_ring_to_rep3` without an error, with replicated shares of `xs`, and are ready again.
  pub galois_ring_to_rep3-Yields :
      (zs : List (Trio ℕ)) (xs : List ℕ)
      → IsReady ids s
      → AllPairs (IsAdditive 16) zs xs
      → Yields {R = R} ids s (map_trio galois_ring_to_rep3 (columns zs)) (AreShares 16 xs)
  unfolding galois_ring_to_rep3 next_id prev_id
  galois_ring_to_rep3-Yields zs xs h cs =
      let w = masked_items_lem P (setups s) h.synced cs in
      let s' = with_setups s w.after in
      let (f0, f1, f2) = from_ab-columns w.items in
      record {
        value = columns (map replicate w.items);
        after = s';
        ready = with_setups-IsReady ids s w.after h w.synced;
        good = (map replicate w.items, refl, replicate-all 16 w.components);
        runs = λ k.
            rw
              (
                w.loop0,
                w.loop1,
                w.loop2,
                h.next id0,
                h.next id1,
                h.next id2,
                h.prev id0,
                h.prev id1,
                h.prev id2,
              )
              (rw (f0, f1, f2) at
                (exchange P ids h.apart (map_trio vec_ring16 (columns w.items)) λ i v.
                  ok_or_fail (expect_vec_ring16 v)
                    (λ c. k i (from_ab (at (columns w.items) i) c) (at s' i))));
      }
