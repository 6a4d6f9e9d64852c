-- ===== src/Protocol/Pack/Correct.antt =====
-- The AND of chunked vectors computes the AND of what is shared, chunk by chunk.
use iris_mpc.Prelude.{
  ℕ, ◌≡◌, ◌==◌, ==_iff, refl, sym, ◌∙◌, true, List, [], ◌∷◌, map, zip_with, length, length-map,
  bit_and, AllPairs, nil, cons, some, ap, ap₂,
}
use iris_mpc.Id.{id0, id1, id2, next_id, prev_id, Trio, at, zip_trio}
use iris_mpc.Execution.Role.{Identity}
use iris_mpc.Execution.Session.{next_identity, prev_identity}
use iris_mpc.Network.Process.{Process, send, receive}
use iris_mpc.Network.Local.Leads.{sent}
use iris_mpc.Network.Value.{vec_ring64}
use iris_mpc.Shares.Share.{Share}
use iris_mpc.Shares.VecShare.{VecShare, from_ab}
use iris_mpc.Shares.Sharing.{IsXorSharing}
use iris_mpc.Shares.Sharing.Vectors.{replicate, from_ab-columns}
use iris_mpc.Protocol.Platform.{Platform}
use iris_mpc.Protocol.Prf.{Prf}
use iris_mpc.Protocol.Program.{Session, ok_or_fail, from_network}
use iris_mpc.Protocol.Run.{IsReady, Yields, exchange, setups, with_setups, with_setups-IsReady}
use iris_mpc.Protocol.And.{expect_vec_ring64, masked_ands, and_many_send, and_many_receive}
use iris_mpc.Protocol.And.Masks.{IsComponents, masked_ands_lem}
use iris_mpc.Protocol.And.Correct.{replicate-all, length-columns}
use iris_mpc.Protocol.Pack.{transposed_pack_and, rebuild}
use iris_mpc.Protocol.Pack.Chunks.{
  joined, joined-AllPairs, flatten-joined, rebuild-joined, equal_sizes_refl, chunked, lengths_map,
  joined-length, pairs-lengths,
}

-- The three parties' vectors of vectors.
abbrev pub chunk_columns : List (List (Trio Share)) → Trio (List VecShare)
chunk_columns ts = record {
  p0 = map (map (λ t. t.p0)) ts;
  p1 = map (map (λ t. t.p1)) ts;
  p2 = map (map (λ t. t.p2)) ts;
}

-- The three results are those of binary shares of the words `zss`, chunk by chunk.
abbrev pub AreXorChunks : ℕ → List (List ℕ) → Trio (List VecShare) → Type 0
AreXorChunks k zss v =
    (ts : List (List (Trio Share))) × (v ≡ chunk_columns ts)
    × AllPairs (AllPairs (IsXorSharing k)) ts zss

replicate-chunks :
    (k : ℕ) {css : List (List (Trio ℕ))} {zss : List (List ℕ)}
    → AllPairs (AllPairs (IsComponents k)) css zss
    → AllPairs (AllPairs (IsXorSharing k)) (map (map replicate) css) zss
replicate-chunks k nil = nil
replicate-chunks k (cons c cs) = cons (replicate-all k c) (replicate-chunks k cs)

-- What the parties put together of each chunk.
from_ab-chunks :
    (css : List (List (Trio ℕ)))
    → let v = chunk_columns (map (map replicate) css) in
      (map (λ c. from_ab (map (λ z. z.p0) c) (map (λ z. z.p2) c)) css ≡ v.p0)
      × (map (λ c. from_ab (map (λ z. z.p1) c) (map (λ z. z.p0) c)) css ≡ v.p1)
      × (map (λ c. from_ab (map (λ z. z.p2) c) (map (λ z. z.p1) c)) css ≡ v.p2)
from_ab-chunks [] = (refl, refl, refl)
from_ab-chunks (c ∷ css) =
    let (e0, e1, e2) = from_ab-columns c in
    let (f0, f1, f2) = from_ab-chunks css in (ap₂ ◌∷◌ e0 f0, ap₂ ◌∷◌ e1 f1, ap₂ ◌∷◌ e2 f2)

module _ {P : Platform} {R : Type 0} (uss vss : List (List (Trio Share))) where
  -- The process of one party: it sends its masked ANDs, and goes on with what it puts together.
  pack_run :
      (f : Trio Share → Share) (s : Session P) (k : List VecShare → Session P → Process P.Bytes R)
      (out : List ℕ) (prf : Prf P) (nx pv : Identity) (ns : List ℕ)
      → map length uss ≡ ns
      → map length uss ≡ map length vss
      → length (joined uss) ≡ length (joined vss)
      → masked_ands P 64 (map f (joined uss)) (map f (joined vss)) s.setup ≡ (out, prf)
      → next_identity s.boot_session ≡ some nx
      → prev_identity s.boot_session ≡ some pv
      → transposed_pack_and (map (map f) uss) (map (map f) vss) s k
        ≡ send nx (P.serialize (vec_ring64 out)) (
            sent (
              receive pv (λ x. ok_or_fail (from_network P x) (λ v.
                ok_or_fail (expect_vec_ring64 v) (λ c.
                  ok_or_fail
                    (rebuild ns out c)
                    (λ r. k r (record { boot_session = s.boot_session; setup = prf })))))))
  unfolding transposed_pack_and and_many_send and_many_receive
  pack_run f s k out prf nx pv ns chosen sizes same loop next prev =
      let count : length uss ≡ length vss =
        sym (length-map length uss) ∙ ap length sizes ∙ length-map length vss in
      let outer : (length (map (map f) uss) == length (map (map f) vss)) ≡ true =
        (==_iff _ _).1 (length-map (map f) uss ∙ count ∙ sym (length-map (map f) vss)) in
      rw
        (
          outer,
          lengths_map f uss,
          lengths_map f vss,
          sizes,
          equal_sizes_refl (map length vss),
          flatten-joined f uss,
          flatten-joined f vss,
          length-columns (joined uss) (joined vss) f same,
          loop,
          next,
          prev,
          sym sizes ∙ chosen,
        )
        refl

module _ {P : Platform} (R : Type 0) (ids : Trio Identity) (s : Trio (Session P)) where
  -- Three ready parties that hold, in chunks of equal sizes, binary shares of the words `xss` and
  -- `yss` end `transposed_pack_and` without an error, with binary shares of the words' ANDs in such
  -- chunks, and are ready again.
  pub transposed_pack_and-Yields :
      (uss vss : List (List (Trio Share))) (xss yss : List (List ℕ))
      → IsReady ids s
      → AllPairs (AllPairs (IsXorSharing 64)) uss xss
      → AllPairs (AllPairs (IsXorSharing 64)) vss yss
      → map length uss ≡ map length vss
      → Yields {R = R} ids s
          (zip_trio transposed_pack_and (chunk_columns uss) (chunk_columns vss))
          (AreXorChunks 64 (zip_with (zip_with bit_and) xss yss))
  unfolding next_id prev_id
  transposed_pack_and-Yields uss vss xss yss h hus hvs sizes =
      let w =
        masked_ands_lem P 64 (setups s) h.synced (joined-AllPairs hus) (joined-AllPairs hvs) in
      let s' = with_setups s w.after in
      let words_sizes : map length xss ≡ map length yss =
        sym (pairs-lengths hus) ∙ sizes ∙ pairs-lengths hvs in
      let (css, cut, cut_sizes, pairs) = chunked bit_and w.words xss yss words_sizes w.components in
      let same = joined-length uss vss sizes in
      let all_sizes : map length uss ≡ map length css = pairs-lengths hus ∙ sym cut_sizes in
      let shares = chunk_columns (map (map replicate) css) in
      let (f0, f1, f2) = from_ab-chunks css in
      let out : Trio (List ℕ) = record {
        p0 = map (λ z. z.p0) (joined css);
        p1 = map (λ z. z.p1) (joined css);
        p2 = map (λ z. z.p2) (joined css);
      } in
      record {
        value = shares;
        after = s';
        ready = with_setups-IsReady ids s w.after h w.synced;
        good = (map (map replicate) css, refl, replicate-chunks 64 pairs);
        runs = λ k.
            rw
              (
                pack_run uss vss (λ t. t.p0) s.p0 (k id0) out.p0 w.after.p0 ids.p1 ids.p2
                    (map length css) all_sizes sizes same (rw (← cut) w.loop0) (h.next id0)
                    (h.prev id0),
                pack_run uss vss (λ t. t.p1) s.p1 (k id1) out.p1 w.after.p1 ids.p2 ids.p0
                    (map length css) all_sizes sizes same (rw (← cut) w.loop1) (h.next id1)
                    (h.prev id1),
                pack_run uss vss (λ t. t.p2) s.p2 (k id2) out.p2 w.after.p2 ids.p0 ids.p1
                    (map length css) all_sizes sizes same (rw (← cut) w.loop2) (h.next id2)
                    (h.prev id2),
              )
              (rw
                (
                  rebuild-joined (λ z. z.p0) (λ z. z.p2) css,
                  rebuild-joined (λ z. z.p1) (λ z. z.p0) css,
                  rebuild-joined (λ z. z.p2) (λ z. z.p1) css,
                  f0,
                  f1,
                  f2,
                )
                at
                (exchange P ids h.apart
                  (record {
                    p0 = vec_ring64 out.p0;
                    p1 = vec_ring64 out.p1;
                    p2 = vec_ring64 out.p2;
                  })
                  λ i v. ok_or_fail (expect_vec_ring64 v) (λ c.
                    ok_or_fail (rebuild (map length css) (at out i) c) (λ r. k i r (at s' i)))));
      }
