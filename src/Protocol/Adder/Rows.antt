-- ===== src/Protocol/Adder/Rows.antt =====
-- Rows of vectors of shared words: exclusive ors and ANDs of them all, and their last row.
use iris_mpc.Prelude.{
  ℕ, ◌≡◌, ◌∙◌, refl, sym, ap₂, List, [], ◌∷◌, ◌++◌, map, length, zip_with, zip_with-tabulate,
  tabulate, AllPairs, nil, cons, bit_and, some, arith,
}
use iris_mpc.Id.{Trio, zip_trio}
use iris_mpc.Execution.Role.{Identity}
use iris_mpc.Shares.Share
use iris_mpc.Shares.Share.{Share}
use iris_mpc.Shares.VecShare.{pop}
use iris_mpc.Shares.Sharing.{IsXorSharing}
use iris_mpc.Protocol.Platform.{Platform}
use iris_mpc.Protocol.Program.{Session}
use iris_mpc.Protocol.Run.{IsReady, Yields}
use iris_mpc.Protocol.Pack.{transposed_pack_xor_assign, transposed_pack_xor, transposed_pack_and}
use iris_mpc.Protocol.Pack.Correct.{chunk_columns, transposed_pack_and-Yields}
use iris_mpc.Protocol.Pack.Chunks.{split_pairs}
use iris_mpc.Protocol.Adder.Slices.{
  Words, xor_words, and_words, Slice, Slice-length, xor_trios, xor-Slice, xor-party,
  xor_assign-party,
}

-- The last row, and what stands before it.
pub pop-snoc :
    {A B : Type 0} (f : A → B) (xs : List A) (x : A)
    → pop (map f (xs ++ x ∷ [])) ≡ some (map f xs, f x)
unfolding pop
pop-snoc f [] x = refl
pop-snoc f (y ∷ []) x = refl
pop-snoc f (y ∷ z ∷ xs) x = rw (pop-snoc f (z ∷ xs) x)

pub AllPairs-snoc :
    {A B : Type 0} {Q : A → B → Type 0} (us : List A) (fs : List B) (f : B)
    → AllPairs Q us (fs ++ f ∷ [])
    → (vs : List A) × (v : A) × (us ≡ vs ++ v ∷ []) × AllPairs Q vs fs × Q v f
AllPairs-snoc us fs f h =
    let (vs, ws, e, front, back) = split_pairs us fs (f ∷ []) h in one ws e front back
  where
    one :
        {A B : Type 0} {Q : A → B → Type 0} {us vs : List A} {fs : List B} {f : B} (ws : List A)
        → us ≡ vs ++ ws
        → AllPairs Q vs fs
        → AllPairs Q ws (f ∷ [])
        → (vs : List A) × (v : A) × (us ≡ vs ++ v ∷ []) × AllPairs Q vs fs × Q v f
    one {vs = vs} (w ∷ []) e front (cons q nil) = (vs, w, e, front, q)
    one [] e front back = elim back [ ]
    one (w ∷ x ∷ ws) e front (cons q back) = elim back [ ]

-- Rows of shared words.
abbrev pub Rows : ℕ → List (List (Trio Share)) → List Words → Type 0
Rows n = AllPairs (Slice n)

pub xor-Rows :
    {n : ℕ} {us vs : List (List (Trio Share))} {fs gs : List Words}
    → Rows n us fs
    → Rows n vs gs
    → Rows n (zip_with xor_trios us vs) (zip_with xor_words fs gs)
xor-Rows nil q = nil
xor-Rows (cons p ps) nil = nil
xor-Rows (cons p ps) (cons q qs) = cons (xor-Slice p q) (xor-Rows ps qs)

-- What one party holds of the rows.
module _ (q : Trio Share → Share)
    (split : (u v : Trio Share) → q (zip_trio Share.xor u v) ≡ Share.xor (q u) (q v)) where
  pub transposed_pack_xor-party :
      (us vs : List (List (Trio Share)))
      → transposed_pack_xor (map (map q) us) (map (map q) vs)
        ≡ map (map q) (zip_with xor_trios us vs)
  unfolding transposed_pack_xor
  transposed_pack_xor-party [] vs = refl
  transposed_pack_xor-party (u ∷ us) [] = refl
  transposed_pack_xor-party (u ∷ us) (v ∷ vs) =
      ap₂ ◌∷◌ (xor-party q split u v) (transposed_pack_xor-party us vs)

  pub transposed_pack_xor_assign-party :
      {n : ℕ} (us vs : List (List (Trio Share))) {fs gs : List Words}
      → Rows n us fs
      → Rows n vs gs
      → length fs ≡ length gs
      → transposed_pack_xor_assign (map (map q) us) (map (map q) vs)
        ≡ map (map q) (zip_with xor_trios us vs)
  unfolding transposed_pack_xor_assign
  transposed_pack_xor_assign-party [] vs hu hv e = refl
  transposed_pack_xor_assign-party (u ∷ us) [] (cons p hu) nil e = absurd (omega arith)
  transposed_pack_xor_assign-party (u ∷ us) (v ∷ vs) (cons p hu) (cons r hv) e =
      ap₂ ◌∷◌ (xor_assign-party q split u v (Slice-length p ∙ sym (Slice-length r)))
        (transposed_pack_xor_assign-party us vs hu hv (omega arith))

-- Rows as vectors of vectors of shared words.
module _ (n : ℕ) where
  rows_of :
      {us : List (List (Trio Share))} {fs : List Words}
      → Rows n us fs
      → AllPairs (AllPairs (IsXorSharing 64)) us (map (tabulate n) fs)
  rows_of nil = nil
  rows_of (cons p ps) = cons p.pairs (rows_of ps)

  pairs-Rows :
      {us : List (List (Trio Share))} (fs : List Words)
      → AllPairs (AllPairs (IsXorSharing 64)) us (map (tabulate n) fs)
      → Rows n us fs
  pairs-Rows [] nil = nil
  pairs-Rows (f ∷ fs) (cons p ps) = cons (record { pairs = p }) (pairs-Rows fs ps)

  and_rows :
      (fs gs : List Words)
      → zip_with (zip_with bit_and) (map (tabulate n) fs) (map (tabulate n) gs)
        ≡ map (tabulate n) (zip_with and_words fs gs)
  and_rows [] gs = refl
  and_rows (f ∷ fs) [] = refl
  and_rows (f ∷ fs) (g ∷ gs) = ap₂ ◌∷◌ (zip_with-tabulate bit_and n f g) (and_rows fs gs)

  Rows-lengths :
      {us vs : List (List (Trio Share))} {fs gs : List Words}
      → Rows n us fs
      → Rows n vs gs
      → length fs ≡ length gs
      → map length us ≡ map length vs
  Rows-lengths nil nil e = refl
  Rows-lengths nil (cons q qs) e = absurd (omega arith)
  Rows-lengths (cons p ps) nil e = absurd (omega arith)
  Rows-lengths (cons p ps) (cons q qs) e =
      ap₂ ◌∷◌ (Slice-length p ∙ sym (Slice-length q)) (Rows-lengths ps qs (omega arith))

module _ {P : Platform} (R : Type 0) (ids : Trio Identity) (s : Trio (Session P)) where
  pub transposed_pack_and-Rows :
      (n : ℕ) (us vs : List (List (Trio Share))) (fs gs : List Words)
      → IsReady ids s
      → Rows n us fs
      → Rows n vs gs
      → length fs ≡ length gs
      → Yields {R = R} ids s
          (zip_trio transposed_pack_and (chunk_columns us) (chunk_columns vs))
          (λ v.
            (ts : List (List (Trio Share))) × (v ≡ chunk_columns ts)
            × Rows n ts (zip_with and_words fs gs))
  transposed_pack_and-Rows n us vs fs gs h hu hv e =
      let y =
        transposed_pack_and-Yields R ids s us vs (map (tabulate n) fs) (map (tabulate n) gs) h
          (rows_of n hu) (rows_of n hv) (Rows-lengths n hu hv e) in
      let (ts, made, good) = y.good in
      record {
        value = y.value;
        after = y.after;
        ready = y.ready;
        good = (ts, made, pairs-Rows n (zip_with and_words fs gs) (rw (and_rows n fs gs) at good));
        runs = y.runs;
      }
