-- ===== src/Protocol/Pack/Chunks.antt =====
-- Cutting vectors into chunks gives back the chunks.
use mathlib.Core.List.{flat_map}
use iris_mpc.Prelude.{
  ℕ, suc, ◌≡◌, ◌∙◌, refl, sym, ap, ap₂, List, [], ◌∷◌, ◌++◌, map, length, length-append, ◌+◌,
  length-map, map-append, zip_with, ==_iff, AllPairs, nil, cons, some, true, arith,
}
use iris_mpc.Shares.VecShare.{from_ab, flatten}
use iris_mpc.Protocol.Pack.{drain, rebuild, equal_sizes}

-- All chunks in one.
pub joined : {A : Type 0} → List (List A) → List A
joined [] = []
joined (c ∷ cs) = c ++ joined cs

module _ {A B : Type 0} where
  drain-length :
      (f : A → B) (c d : List A) → drain (length c) (map f (c ++ d)) ≡ some (map f c, map f d)
  unfolding drain
  drain-length f [] d = refl
  drain-length f (x ∷ c) d = rw (drain-length f c d)

  pub lengths_map : (f : A → B) (cs : List (List A)) → map length (map (map f) cs) ≡ map length cs
  lengths_map f [] = refl
  lengths_map f (c ∷ cs) = rw (length-map f c, lengths_map f cs)

  AllPairs-append :
      {Q : A → B → Type 0} {a c : List A} {b d : List B}
      → AllPairs Q a b
      → AllPairs Q c d
      → AllPairs Q (a ++ c) (b ++ d)
  AllPairs-append nil q = q
  AllPairs-append (cons p ps) q = cons p (AllPairs-append ps q)

  pub joined-AllPairs :
      {Q : A → B → Type 0} {cs : List (List A)} {ds : List (List B)}
      → AllPairs (AllPairs Q) cs ds
      → AllPairs Q (joined cs) (joined ds)
  unfolding joined
  joined-AllPairs nil = nil
  joined-AllPairs (cons p ps) = AllPairs-append p (joined-AllPairs ps)

  pub split_pairs :
      {Q : A → B → Type 0} (ws : List A) (b d : List B)
      → AllPairs Q ws (b ++ d)
      → (a : List A) × (c : List A) × (ws ≡ a ++ c) × AllPairs Q a b × AllPairs Q c d
  split_pairs ws [] d q = ([], ws, refl, nil, q)
  split_pairs [] (x ∷ b) d q = elim q [ ]
  split_pairs (w ∷ ws) (x ∷ b) d (cons p ps) =
      let (a, c, e, l, r) = split_pairs ws b d ps in (w ∷ a, c, ap (◌∷◌ w) e, cons p l, r)

pub flatten-joined :
    {A : Type 0} (f : A → _) (cs : List (List A)) → flatten (map (map f) cs) ≡ map f (joined cs)
unfolding flatten joined flat_map
flatten-joined f [] = refl
flatten-joined f (c ∷ cs) =
    ap (λ r. map f c ++ r) (flatten-joined f cs) ∙ sym (map-append f c (joined cs))

module _ {A : Type 0} (f g : A → ℕ) where
  pub rebuild-joined :
      (cs : List (List A))
      → rebuild (map length cs) (map f (joined cs)) (map g (joined cs))
        ≡ some (map (λ c. from_ab (map f c) (map g c)) cs)
  unfolding rebuild joined
  rebuild-joined [] = refl
  rebuild-joined (c ∷ cs) =
      rw (drain-length f c (joined cs), drain-length g c (joined cs), rebuild-joined cs)

pub equal_sizes_refl : (ns : List ℕ) → equal_sizes ns ns ≡ true
unfolding equal_sizes
equal_sizes_refl [] = refl
equal_sizes_refl (n ∷ ns) = rw ((==_iff n n).1 refl) (equal_sizes_refl ns)

zip_with-append :
    (op : ℕ → ℕ → ℕ) (xs ys us vs : List ℕ)
    → length xs ≡ length ys
    → zip_with op (xs ++ us) (ys ++ vs) ≡ zip_with op xs ys ++ zip_with op us vs
zip_with-append op [] [] us vs e = refl
zip_with-append op [] (y ∷ ys) us vs e = absurd (omega arith)
zip_with-append op (x ∷ xs) [] us vs e = absurd (omega arith)
zip_with-append op (x ∷ xs) (y ∷ ys) us vs e =
    ap (◌∷◌ (op x y)) (zip_with-append op xs ys us vs (omega arith))

pairs-length :
    {A : Type 0} {Q : A → ℕ → Type 0} (op : ℕ → ℕ → ℕ) (ws : List A) (xs ys : List ℕ)
    → length xs ≡ length ys
    → AllPairs Q ws (zip_with op xs ys)
    → length ws ≡ length xs
pairs-length op [] [] ys e q = refl
pairs-length op (w ∷ ws) [] ys e q = elim q [ ]
pairs-length op ws (x ∷ xs) [] e q = absurd (omega arith)
pairs-length op [] (x ∷ xs) (y ∷ ys) e q = elim q [ ]
pairs-length op (w ∷ ws) (x ∷ xs) (y ∷ ys) e (cons p ps) =
    ap suc (pairs-length op ws xs ys (omega arith) ps)

pub joined-length :
    {A : Type 0} (cs ds : List (List A))
    → map length cs ≡ map length ds
    → length (joined cs) ≡ length (joined ds)
unfolding joined
joined-length [] [] e = refl
joined-length [] (d ∷ ds) e = absurd (cc)
joined-length (c ∷ cs) [] e = absurd (cc)
joined-length (c ∷ cs) (d ∷ ds) e =
    let first : length c ≡ length d = cc in
    let rest : map length cs ≡ map length ds = cc in
    length-append c (joined cs)
    ∙ ap₂ ◌+◌ first (joined-length cs ds rest)
    ∙ sym (length-append d (joined ds))

pub pairs-lengths :
    {A : Type 0} {Q : A → ℕ → Type 0} {cs : List (List A)} {xss : List (List ℕ)}
    → AllPairs (AllPairs Q) cs xss
    → map length cs ≡ map length xss
pairs-lengths nil = refl
pairs-lengths (cons p ps) = ap₂ ◌∷◌ (row p) (pairs-lengths ps)
  where
    row :
        {A : Type 0} {Q : A → ℕ → Type 0} {c : List A} {xs : List ℕ}
        → AllPairs Q c xs
        → length c ≡ length xs
    row nil = refl
    row (cons q qs) = ap suc (row qs)

-- Words in step with what two chunked vectors give are chunked as these are.
pub chunked :
    {A : Type 0} {Q : A → ℕ → Type 0} (op : ℕ → ℕ → ℕ) (ws : List A) (xss yss : List (List ℕ))
    → map length xss ≡ map length yss
    → AllPairs Q ws (zip_with op (joined xss) (joined yss))
    → (cs : List (List A)) × (ws ≡ joined cs)
      × (map length cs ≡ map length xss)
      × AllPairs (AllPairs Q) cs (zip_with (zip_with op) xss yss)
unfolding joined
chunked op [] [] yss e q = ([], refl, refl, nil)
chunked op (w ∷ ws) [] yss e q = elim q [ ]
chunked op ws (xs ∷ xss) [] e q = absurd (cc)
chunked {Q = Q} op ws (xs ∷ xss) (ys ∷ yss) e q =
    let same : length xs ≡ length ys = cc in
    let rest : map length xss ≡ map length yss = cc in
    let (a, c, cut, now, later) =
      split_pairs ws (zip_with op xs ys) (zip_with op (joined xss) (joined yss))
        (rw (zip_with-append op xs ys (joined xss) (joined yss) same) at q) in
    let (cs, e', sizes, pairs) = chunked op c xss yss rest later in
    (
      a ∷ cs,
      cut ∙ ap (λ r. a ++ r) e',
      ap₂ ◌∷◌ (pairs-length op a xs ys same now) sizes,
      cons now pairs,
    )
