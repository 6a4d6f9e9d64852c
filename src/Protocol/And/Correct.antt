-- ===== src/Protocol/And/Correct.antt =====
-- The protocol for AND computes the AND of what is shared.
use iris_mpc.Prelude.{
  ℕ, ◌≡◌, ◌==◌, ==_iff, refl, sym, ◌∙◌, true, List, map, zip_with, length, length-map, bit_and,
  AllPairs, nil, cons,
}
use iris_mpc.Id.{id0, id1, id2, next_id, prev_id, Trio, at, columns, zip_trio}
use iris_mpc.Execution.Role.{Identity}
use iris_mpc.Network.Value.{vec_ring64}
use iris_mpc.Shares.Share.{Share, new}
use iris_mpc.Shares.VecShare.{from_ab}
use iris_mpc.Shares.Sharing.{IsXorSharing}
use iris_mpc.Shares.Sharing.Vectors.{replicate, from_ab-columns}
use iris_mpc.Protocol.Platform.{Platform}
use iris_mpc.Protocol.Program.{Session, ok_or_fail}
use iris_mpc.Protocol.Run.{IsReady, Runs, exchange, setups, with_setups, with_setups-IsReady}
use iris_mpc.Protocol.And.{and_many, expect_vec_ring64}
use iris_mpc.Protocol.And.Masks.{IsComponents, masked_ands_lem}

replicate-IsXorSharing :
    (k : ℕ) {z : Trio ℕ} {x : ℕ} → IsComponents k z x → IsXorSharing k (replicate z) x
unfolding new
replicate-IsXorSharing k c = record {
  replicated = record { b0 = refl; b1 = refl; b2 = refl; lt0 = c.lt0; lt1 = c.lt1; lt2 = c.lt2 };
  value = c.value;
}

pub replicate-all :
    (k : ℕ) {zs : List (Trio ℕ)} {xs : List ℕ}
    → AllPairs (IsComponents k) zs xs
    → AllPairs (IsXorSharing k) (map replicate zs) xs
replicate-all k nil = nil
replicate-all k (cons c cs) = cons (replicate-IsXorSharing k c) (replicate-all k cs)

pub length-columns :
    (us vs : List (Trio Share)) (f : Trio Share → Share)
    → length us ≡ length vs
    → (length (map f us) == length (map f vs)) ≡ true
length-columns us vs f e = (==_iff _ _).1 (length-map f us ∙ e ∙ sym (length-map f vs))

-- The three vectors are those of binary shares of the words `xs`.
abbrev pub AreXorShares : ℕ → List ℕ → Trio (List Share) → Type 0
AreXorShares k xs v = (ts : List (Trio Share)) × (v ≡ columns ts) × AllPairs (IsXorSharing k) ts xs

module _ {P : Platform} (R : Type 0) (ids : Trio Identity) (s : Trio (Session P)) where
  -- A run of `and_many` by three parties that hold the vectors `us` and `vs` of binary shares.
  pub record AndRun (us vs : List (Trio Share)) (zs : List ℕ) : Type 0 where
    pub shares : List (Trio Share)
    pub after : Trio (Session P)
    pub ready : IsReady ids after
    pub correct : AllPairs (IsXorSharing 64) shares zs
    pub runs :
        Runs {R = R} ids (zip_trio and_many (columns us) (columns vs)) s (columns shares) after

  -- For three ready parties that hold binary shares of the words `xs` and `ys`, in vectors of one
  -- length, `and_many` ends without an error at every party, with binary shares of the words' ANDs
  -- and the parties ready again.
  pub and_many-AndRun :
      (us vs : List (Trio Share)) (xs ys : List ℕ)
      → IsReady ids s
      → AllPairs (IsXorSharing 64) us xs
      → AllPairs (IsXorSharing 64) vs ys
      → length us ≡ length vs
      → AndRun us vs (zip_with bit_and xs ys)
  unfolding and_many next_id prev_id
  and_many-AndRun us vs xs ys h hus hvs e =
      let w = masked_ands_lem P 64 (setups s) h.synced hus hvs in
      let s' = with_setups s w.after in
      let (f0, f1, f2) = from_ab-columns w.words in
      record {
        shares = map replicate w.words;
        after = s';
        ready = with_setups-IsReady ids s w.after h w.synced;
        correct = replicate-all 64 w.components;
        runs = λ k.
            rw
              (
                length-columns us vs (λ t. t.p0) e,
                length-columns us vs (λ t. t.p1) e,
                length-columns us vs (λ t. t.p2) e,
                w.loop0,
                w.loop1,
                w.loop2,
                h.next id0,
                h.next id1,
                h.next id2,
                h.prev id0,
                h.prev id1,
                h.prev id2,
              )
              (rw (f0, f1, f2) at
                (exchange P ids h.apart
                  (record {
                    p0 = vec_ring64 (columns w.words).p0;
                    p1 = vec_ring64 (columns w.words).p1;
                    p2 = vec_ring64 (columns w.words).p2;
                  })
                  λ i v.
                    ok_or_fail (expect_vec_ring64 v)
                      (λ c. k i (from_ab (at (columns w.words) i) c) (at s' i))));
      }
