-- ===== src/Protocol/Ends/Adder.antt =====
-- Whole runs of the adder of three numbers.
use iris_mpc.Prelude.{◌≡◌, ℕ, suc, List, [], ◌∷◌, ◌++◌, length}
use iris_mpc.Prelude.Bits.{bit_at}
use iris_mpc.Id.{Trio}
use iris_mpc.Execution.Role.{Identity}
use iris_mpc.Network.Local.{Config, Reach}
use iris_mpc.Network.Local.Queues.{Channels}
use iris_mpc.Network.Local.Leads.{Holds, idle}
use iris_mpc.Shares.Share.{Share}
use iris_mpc.Shares.VecShare.{VecShare}
use iris_mpc.Protocol.Platform.{Platform}
use iris_mpc.Protocol.Program.{Session, Program}
use iris_mpc.Protocol.Run.{IsReady}
use iris_mpc.Protocol.Pack.Correct.{chunk_columns}
use iris_mpc.Protocol.Adder.{binary_add_3_get_msb, binary_add_3_get_two_carries}
use iris_mpc.Protocol.Adder.Slices.{Words, AreSlices}
use iris_mpc.Protocol.Adder.Summands.{Summands}
use iris_mpc.Protocol.Adder.Highest.{binary_add_3_get_msb-Yields}
use iris_mpc.Protocol.Adder.Carries.{AreCarries}
use iris_mpc.Protocol.Adder.TwoCarries.{binary_add_3_get_two_carries-Yields}
use iris_mpc.Protocol.Adder.Columns.{total_at, top_words-bit, two_carries-bits}
use iris_mpc.Protocol.Ends.{begin, EndsFrom, runs_end}

-- The parties' vectors are binary shares of words that hold bit `m` of the sums.
abbrev pub AreTopBits : ℕ → List (Trio Words) → ℕ → Trio VecShare → Type 0
AreTopBits n ts m v =
    (w : Words) × AreSlices n w v × ((j b : ℕ) → bit_at (w j) b ≡ bit_at (total_at j b ts) m)

-- The three parties' adders, each on its part of three rows.
abbrev pub adders :
    {P : Platform} {R : Type 0}
    → (us1 us2 us3 : List (List (Trio Share))) → Trio (Program P R VecShare)
adders us1 us2 us3 =
    let x = chunk_columns us1 in
    let y = chunk_columns us2 in
    let z = chunk_columns us3 in
    record {
      p0 = binary_add_3_get_msb x.p0 y.p0 z.p0;
      p1 = binary_add_3_get_msb x.p1 y.p1 z.p1;
      p2 = binary_add_3_get_msb x.p2 y.p2 z.p2;
    }

abbrev pub carry_adders :
    {P : Platform} {R : Type 0}
    → (us1 us2 us3 : List (List (Trio Share))) → ℕ
    → Trio (Program P R (VecShare × VecShare))
carry_adders us1 us2 us3 len =
    let x = chunk_columns us1 in
    let y = chunk_columns us2 in
    let z = chunk_columns us3 in
    record {
      p0 = binary_add_3_get_two_carries x.p0 y.p0 z.p0 len;
      p1 = binary_add_3_get_two_carries x.p1 y.p1 z.p1 len;
      p2 = binary_add_3_get_two_carries x.p2 y.p2 z.p2 len;
    }

-- The parties' two vectors are shares of the first `len` bits of words that hold bits `m` and
-- `m + 1` of the sums.
abbrev pub AreTwoCarries : ℕ → ℕ → List (Trio Words) → ℕ → Trio (VecShare × VecShare) → Type 0
AreTwoCarries n len ts m v =
    (low : Words) × (high : Words) × AreCarries n len low high v
    × ((j b : ℕ) → bit_at (low j) b ≡ bit_at (total_at j b ts) m)
    × ((j b : ℕ) → bit_at (high j) b ≡ bit_at (total_at j b ts) (suc m))

-- The rows of at least four positions: the lowest two, those between, and the highest two.
abbrev pub positions :
    Trio Words → Trio Words → List (Trio Words) → Trio Words → Trio Words → List (Trio Words)
positions t0 t1 r t u = (t0 ∷ t1 ∷ (r ++ t ∷ [])) ++ u ∷ []

module _ {P : Platform} (ids : Trio Identity) (s : Trio (Session P)) (n : Channels P.Bytes) where
  -- Three ready parties with binary shares of the bits of three numbers run `binary_add_3_get_msb`
  -- from idle channels. The numbers lie across rows of words, one row for each of at least four
  -- positions, so that bit `b` of word `j` of the rows holds one sum's bits. Wherever an order of
  -- their steps has taken them, they can go on until their results are binary shares of words of
  -- which bit `b` of word `j` is the highest position of the sum of the three numbers there, and no
  -- message is left over.
  pub binary_add_3_get_msb_ends :
      (size : ℕ) (us1 us2 us3 : List (List (Trio Share))) (t0 t1 t u : Trio Words)
      (r : List (Trio Words)) (e : Config P.Bytes VecShare)
      → IsReady ids s
      → Summands size us1 us2 us3 (positions t0 t1 r t u)
      → Holds ids n idle
      → Reach ids (begin (adders us1 us2 us3) s n) e
      → EndsFrom ids e (AreTopBits size (positions t0 t1 r t u) (suc (suc (length (r ++ t ∷ [])))))
  binary_add_3_get_msb_ends size us1 us2 us3 t0 t1 t u r e h hs quiet =
      let y = binary_add_3_get_msb-Yields VecShare ids size s us1 us2 us3 t0 t1 t u r h hs in
      runs_end ids s y.after (adders us1 us2 us3) y.value n _ h.apart y.runs
        (_, y.good, λ j b. top_words-bit j b t0 t1 t u r) quiet

  -- Three ready parties with binary shares of the bits of three numbers run
  -- `binary_add_3_get_two_carries` for the length `len` from idle channels. The numbers lie across
  -- rows of words, one row for each of at least three positions. Wherever an order of their steps
  -- has taken them, they can go on until each has two vectors, which are shares of single bits and
  -- belong to the first `len` bits of words: bit `b` of word `j` is the first position above the
  -- numbers of the sum of the three numbers there, in the first vector's words, and the second
  -- position above them in the second vector's words. No message is left over.
  pub binary_add_3_get_two_carries_ends :
      (size len : ℕ) (us1 us2 us3 : List (List (Trio Share))) (t0 t1 u : Trio Words)
      (r : List (Trio Words)) (e : Config P.Bytes (VecShare × VecShare))
      → IsReady ids s
      → Summands size us1 us2 us3 (t0 ∷ t1 ∷ (r ++ u ∷ []))
      → Holds ids n idle
      → Reach ids (begin (carry_adders us1 us2 us3 len) s n) e
      → EndsFrom ids e
          (AreTwoCarries size len (t0 ∷ t1 ∷ (r ++ u ∷ [])) (suc (suc (length (r ++ u ∷ [])))))
  binary_add_3_get_two_carries_ends size len us1 us2 us3 t0 t1 u r e h hs quiet =
      let y =
        binary_add_3_get_two_carries-Yields (VecShare × VecShare) ids size len s us1 us2 us3 t0 t1 u
          r h hs in
      runs_end ids s y.after (carry_adders us1 us2 us3 len) y.value n _ h.apart y.runs
        (
          _,
          _,
          y.good,
          (λ j b. (two_carries-bits j b t0 t1 u r).0),
          (λ j b. (two_carries-bits j b t0 t1 u r).1),
        )
        quiet
