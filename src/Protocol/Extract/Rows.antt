-- ===== src/Protocol/Extract/Rows.antt =====
-- The rows that the three parties get from the transposition of shared numbers.
use iris_mpc.Prelude.{
  ℕ, zero, suc, ◌+◌, ◌-◌, ◌*◌, ◌^◌, ◌<◌, ◌≤◌, ◌≡◌, ◌⊎◌, inl, inr, ◌∙◌, refl, sym, ap, fun_ext, List,
  map, some, tabulate, map-tabulate, tabulate-AllPairs, arith,
}
use iris_mpc.Prelude.Bits.{bit_at, bit_at-ext}
use iris_mpc.Prelude.Shifts.{bit_at-high}
use iris_mpc.Id.{Trio}
use iris_mpc.Shares.Share.{Share, zero_share}
use iris_mpc.Shares.Sharing.{IsSharing, IsReplicated, IsXorSharing}
use iris_mpc.Shares.TransposePack.Tables.{padded}
use iris_mpc.Shares.TransposePack.Correct.{ArePacked, chunk_count}
use iris_mpc.Shares.TransposePack.Packer.{Packer}
use iris_mpc.Protocol.Adder.Slices.{Words}
use iris_mpc.Protocol.Adder.Rows.{Rows}
use iris_mpc.Protocol.Adder.Summands.{Summands}
use iris_mpc.Protocol.Extract.Parts.{
  part1, part2, part3, part1-IsXorSharing, part2-IsXorSharing, part3-IsXorSharing,
}

-- Two words of one width are equal if their bits are.
same_word :
    (w a b : ℕ) → a < 2 ^ w → b < 2 ^ w → ((c : ℕ) → c < w → bit_at a c ≡ bit_at b c) → a ≡ b
same_word w a b ha hb h = bit_at-ext a b λ c. elim (split c w) [
  | inl lt ↦ h c lt
  | inr le ↦
      let (d, e) = above c w le in
      ap (bit_at a) e ∙ bit_at-high w a d ha ∙ sym (bit_at-high w b d hb) ∙ ap (bit_at b) (sym e)
]
  where
    split : (c w : ℕ) → (c < w) ⊎ (w ≤ c)
    split c w = omega arith

    above : (c w : ℕ) → w ≤ c → (d : ℕ) × (c ≡ w + d)
    above c w le = (c - w, omega arith)

padded-agree :
    (p q : Share → ℕ) (k : ℕ) (f g : ℕ → Share) (z : Share)
    → ((i : ℕ) → p (f i) ≡ q (g i))
    → p z ≡ q z
    → (i : ℕ) → p (padded k f z i) ≡ q (padded k g z i)
padded-agree p q zero f g z h e i = e
padded-agree p q (suc k) f g z h e zero = h 0
padded-agree p q (suc k) f g z h e (suc i) =
    padded-agree p q k (λ i. f (suc i)) (λ i. g (suc i)) z (λ i. h (suc i)) e i

-- The parties have `k` shares of numbers `x`.
module _ (p : Packer) (k : ℕ) (t : ℕ → Trio Share) (x : ℕ → ℕ)
    (h : (i : ℕ) → IsSharing p.width (t i) (x i)) where
  pub packed0 : ArePacked p.width 64 p.width k (λ i. (t i).p0) (p.pack (tabulate k (λ i. (t i).p0)))
  packed0 =
      p.packed k (λ i. (t i).p0) (record { a = λ i. (h i).lt0; b = λ i. rw ((h i).b0) ((h i).lt2) })

  pub packed1 : ArePacked p.width 64 p.width k (λ i. (t i).p1) (p.pack (tabulate k (λ i. (t i).p1)))
  packed1 =
      p.packed k (λ i. (t i).p1) (record { a = λ i. (h i).lt1; b = λ i. rw ((h i).b1) ((h i).lt0) })

  pub packed2 : ArePacked p.width 64 p.width k (λ i. (t i).p2) (p.pack (tabulate k (λ i. (t i).p2)))
  packed2 =
      p.packed k (λ i. (t i).p2) (record { a = λ i. (h i).lt2; b = λ i. rw ((h i).b2) ((h i).lt1) })

  -- What the parties have as the word `j` of the row `r`.
  abbrev pub word : ℕ → ℕ → Trio Share
  word r j = record { p0 = packed0.rows r j; p1 = packed1.rows r j; p2 = packed2.rows r j }

  pub word-IsReplicated :
      (r j : ℕ) → r < p.width → j < chunk_count 64 k → IsReplicated 64 (word r j)
  unfolding zero_share
  word-IsReplicated r j hr hj = record {
    b0 = same_word 64 _ _ (packed0.within r j hj).1 (packed2.within r j hj).0 λ c hc.
        packed0.b r j c hr hj hc
        ∙ ap (λ n. bit_at n r)
            (padded-agree (λ s. s.b) (λ s. s.a) k (λ i. (t i).p0) (λ i. (t i).p2) zero_share
              (λ i. (h i).b0) refl (64 * j + c))
        ∙ sym (packed2.a r j c hr hj hc);
    b1 = same_word 64 _ _ (packed1.within r j hj).1 (packed0.within r j hj).0 λ c hc.
        packed1.b r j c hr hj hc
        ∙ ap (λ n. bit_at n r)
            (padded-agree (λ s. s.b) (λ s. s.a) k (λ i. (t i).p1) (λ i. (t i).p0) zero_share
              (λ i. (h i).b1) refl (64 * j + c))
        ∙ sym (packed0.a r j c hr hj hc);
    b2 = same_word 64 _ _ (packed2.within r j hj).1 (packed1.within r j hj).0 λ c hc.
        packed2.b r j c hr hj hc
        ∙ ap (λ n. bit_at n r)
            (padded-agree (λ s. s.b) (λ s. s.a) k (λ i. (t i).p2) (λ i. (t i).p1) zero_share
              (λ i. (h i).b2) refl (64 * j + c))
        ∙ sym (packed1.a r j c hr hj hc);
    lt0 = (packed0.within r j hj).0;
    lt1 = (packed1.within r j hj).0;
    lt2 = (packed2.within r j hj).0;
  }

  -- All rows.
  abbrev pub word_rows : List (List (Trio Share))
  word_rows = tabulate p.width (λ r. tabulate (chunk_count 64 k) (word r))

  rows-party :
      (q : Trio Share → Share)
      → map (map q) word_rows
        ≡ tabulate p.width (λ r. tabulate (chunk_count 64 k) (λ j. q (word r j)))
  rows-party q =
      map-tabulate (map q) p.width (λ r. tabulate (chunk_count 64 k) (word r))
      ∙ ap (tabulate p.width) (fun_ext λ r. map-tabulate q (chunk_count 64 k) (word r))

  -- Each party's transposition is its part of the rows.
  pub transposed0 : p.pack (tabulate k (λ i. (t i).p0)) ≡ some (map (map (λ t. t.p0)) word_rows)
  transposed0 = packed0.made ∙ ap some (sym (rows-party (λ t. t.p0)))

  pub transposed1 : p.pack (tabulate k (λ i. (t i).p1)) ≡ some (map (map (λ t. t.p1)) word_rows)
  transposed1 = packed1.made ∙ ap some (sym (rows-party (λ t. t.p1)))

  pub transposed2 : p.pack (tabulate k (λ i. (t i).p2)) ≡ some (map (map (λ t. t.p2)) word_rows)
  transposed2 = packed2.made ∙ ap some (sym (rows-party (λ t. t.p2)))

  -- The rows of the numbers that the components' bits form.
  abbrev pub components : ℕ → Trio Words
  components r = record {
    p0 = λ j. (word r j).p0.a;
    p1 = λ j. (word r j).p1.a;
    p2 = λ j. (word r j).p2.a;
  }

  part-Rows :
      (part : Trio Share → Trio Share) (value : ℕ → Words)
      → ((r j : ℕ) → IsReplicated 64 (word r j) → IsXorSharing 64 (part (word r j)) (value r j))
      → Rows (chunk_count 64 k) (map (map part) word_rows) (tabulate p.width value)
  part-Rows part value each =
      rw (map-tabulate (map part) p.width (λ r. tabulate (chunk_count 64 k) (word r))) (
        tabulate-AllPairs p.width (λ r. map part (tabulate (chunk_count 64 k) (word r))) value
          λ r hr. record {
            pairs = rw (map-tabulate part (chunk_count 64 k) (word r)) (
                tabulate-AllPairs (chunk_count 64 k) (λ j. part (word r j)) (value r)
                  λ j hj. each r j (word-IsReplicated r j hr hj));
          })

  pub parts-Summands :
      Summands
        (chunk_count 64 k)
        (map (map part1) word_rows)
        (map (map part2) word_rows)
        (map (map part3) word_rows)
        (tabulate p.width components)
  parts-Summands = record {
    first =
        rw (map-tabulate (λ t. t.p0) p.width components)
          (part-Rows part1 (λ r. (components r).p0) (λ r j e. part1-IsXorSharing 64 e));
    second =
        rw (map-tabulate (λ t. t.p1) p.width components)
          (part-Rows part2 (λ r. (components r).p1) (λ r j e. part2-IsXorSharing 64 e));
    third =
        rw (map-tabulate (λ t. t.p2) p.width components)
          (part-Rows part3 (λ r. (components r).p2) (λ r j e. part3-IsXorSharing 64 e));
  }
