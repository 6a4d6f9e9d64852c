-- ===== src/Shares/TransposePack.antt =====
-- iris-mpc-cpu/src/shares/vecshare_bittranspose.rs: vectors of any length, transposed array by array.
pub mod U16
pub mod U32
pub mod U64
pub mod Tables
pub mod Filled
pub mod Correct
pub mod Vectors
pub mod Packer
use iris_mpc.Prelude.{
  ℕ, zero, suc, ◌+◌, ◌-◌, ◌*◌, ◌/◌, List, [], ◌∷◌, Option, some, length, take, drop, tabulate,
}
use iris_mpc.Execution.Session.{◌>>=◌}
use iris_mpc.Shares.Share.{Share, zero_share}
use iris_mpc.Shares.Transpose.{set}

-- A vector with the length `n`, cut off or filled with `x`.
abbrev pub resize : List Share → ℕ → Share → List Share
resize ys zero x = []
resize [] (suc n) x = x ∷ resize [] n x
resize (y ∷ ys) (suc n) x = y ∷ resize ys n x

abbrev pub chunks : ℕ → ℕ → List Share → List (List Share)
chunks size zero xs = []
chunks size (suc n) xs = take size xs ∷ chunks size n (drop size xs)

-- The whole chunks of a vector, without what is left over.
abbrev pub chunks_exact : ℕ → List Share → List (List Share)
chunks_exact size xs = chunks size (length xs / size) xs

-- Each word goes to the position `j` of its row.
abbrev pub place : ℕ → List Share → List (List Share) → Option (List (List Share))
place j [] res = some res
place j (src ∷ srcs) [] = some []
place j (src ∷ srcs) (des ∷ res) = do
  des ← set des j src
  rest ← place j srcs res
  some (des ∷ rest)

-- The loop over the chunks, from the number `j` on.
abbrev pub place_chunks :
    (List Share → Option (List Share))
    → ℕ
    → List (List Share)
    → List (List Share)
    → Option (List (List Share))
place_chunks transpose j [] res = some res
place_chunks transpose j (x ∷ xs) res = do
  trans ← transpose x
  res ← place j trans res
  place_chunks transpose (j + 1) xs res

-- The body of each of the functions, for the transposition of arrays of `size` shares and for `l`
-- rows.
unfoldable pub transpose_pack :
    (List Share → Option (List Share)) → ℕ → ℕ → List Share → Option (List (List Share))
unfolding tabulate
transpose_pack transpose size l shares =
    let len = (length shares + (size - 1)) / size in
    let shares = resize shares (len * size) zero_share in
    place_chunks transpose 0 (chunks_exact size shares)
      (tabulate l (λ _. tabulate len (λ _. zero_share)))
