-- ===== src/Protocol/Adder/Slices.antt =====
-- Vectors of shared words, one for each position of the numbers that are added.
use iris_mpc.Prelude.{
  ℕ, ◌≡◌, refl, sym, ◌∙◌, List, [], ◌∷◌, map, length, zip_with, zip_with-tabulate, tabulate,
  length-tabulate, AllPairs, nil, cons, AllPairs-length, bit_xor, bit_and, arith,
}
use iris_mpc.Id.{Trio, zip_trio, columns}
use iris_mpc.Execution.Role.{Identity}
use iris_mpc.Shares.Share
use iris_mpc.Shares.Share.{Share}
use iris_mpc.Shares.VecShare.{xor_assign}
use iris_mpc.Shares.VecShare
use iris_mpc.Shares.Sharing.{IsXorSharing}
use iris_mpc.Shares.Sharing.Xor.{xor-IsXorSharing}
use iris_mpc.Protocol.Platform.{Platform}
use iris_mpc.Protocol.Program.{Session}
use iris_mpc.Protocol.Run.{IsReady, Yields}
use iris_mpc.Protocol.And.{and_many}
use iris_mpc.Protocol.And.Correct.{and_many-AndRun}

-- Words by their index.
abbrev pub Words : Type 0
Words = ℕ → ℕ

abbrev pub xor_words : Words → Words → Words
xor_words f g i = bit_xor (f i) (g i)

abbrev pub and_words : Words → Words → Words
and_words f g i = bit_and (f i) (g i)

-- Binary shares of the words below `n`.
pub record Slice (n : ℕ) (ts : List (Trio Share)) (f : Words) : Type 0 where
  pub pairs : AllPairs (IsXorSharing 64) ts (tabulate n f)

pub Slice-length : {n : ℕ} {ts : List (Trio Share)} {f : Words} → Slice n ts f → length ts ≡ n
Slice-length {n} {f = f} h = AllPairs-length h.pairs ∙ length-tabulate n f

-- The parties' vectors of exclusive ors.
abbrev pub xor_trios : List (Trio Share) → List (Trio Share) → List (Trio Share)
xor_trios = zip_with (zip_trio Share.xor)

xor_AllPairs :
    {us vs : List (Trio Share)} {xs ys : List ℕ}
    → AllPairs (IsXorSharing 64) us xs
    → AllPairs (IsXorSharing 64) vs ys
    → AllPairs (IsXorSharing 64) (xor_trios us vs) (zip_with bit_xor xs ys)
xor_AllPairs nil q = nil
xor_AllPairs (cons p ps) nil = nil
xor_AllPairs (cons p ps) (cons q qs) = cons (xor-IsXorSharing 64 p q) (xor_AllPairs ps qs)

pub xor-Slice :
    {n : ℕ} {us vs : List (Trio Share)} {f g : Words}
    → Slice n us f
    → Slice n vs g
    → Slice n (xor_trios us vs) (xor_words f g)
xor-Slice {n} {f = f} {g = g} p q = record {
  pairs = rw (zip_with-tabulate bit_xor n f g) at (xor_AllPairs p.pairs q.pairs);
}

-- What one party holds of exclusive ors.
module _ (q : Trio Share → Share)
    (split : (u v : Trio Share) → q (zip_trio Share.xor u v) ≡ Share.xor (q u) (q v)) where
  pub xor-party :
      (us vs : List (Trio Share)) → VecShare.xor (map q us) (map q vs) ≡ map q (xor_trios us vs)
  unfolding VecShare.xor
  xor-party [] vs = refl
  xor-party (u ∷ us) [] = refl
  xor-party (u ∷ us) (v ∷ vs) = rw (split u v, ← xor-party us vs)

  pub xor_assign-party :
      (us vs : List (Trio Share))
      → length us ≡ length vs
      → xor_assign (map q us) (map q vs) ≡ map q (xor_trios us vs)
  unfolding xor_assign
  xor_assign-party [] vs e = refl
  xor_assign-party (u ∷ us) [] e = absurd (omega arith)
  xor_assign-party (u ∷ us) (v ∷ vs) e = rw (split u v, ← xor_assign-party us vs (omega arith))

-- The parties' vectors that are made of the sharings `ts`, when these are binary shares of `f`.
abbrev pub AreSlices : ℕ → Words → Trio (List Share) → Type 0
AreSlices n f v = (ts : List (Trio Share)) × (v ≡ columns ts) × Slice n ts f

module _ {P : Platform} (R : Type 0) (ids : Trio Identity) (s : Trio (Session P)) where
  pub and_many-Slice :
      (n : ℕ) (us vs : List (Trio Share)) (f g : Words)
      → IsReady ids s
      → Slice n us f
      → Slice n vs g
      → Yields {R = R} ids s
          (zip_trio and_many (columns us) (columns vs))
          (AreSlices n (and_words f g))
  and_many-Slice n us vs f g h hus hvs =
      let r =
        and_many-AndRun R ids s us vs (tabulate n f) (tabulate n g) h hus.pairs hvs.pairs
          (Slice-length hus ∙ sym (Slice-length hvs)) in
      record {
        value = columns r.shares;
        after = r.after;
        ready = r.ready;
        good =
            (r.shares, refl, record { pairs = rw (zip_with-tabulate bit_and n f g) at r.correct });
        runs = r.runs;
      }
