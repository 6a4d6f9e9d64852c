-- ===== src/Protocol/Pack.antt =====
-- iris-mpc-cpu/src/protocol/binary.rs: exclusive or and AND of vectors of shared vectors.
pub mod Chunks
pub mod Correct
use iris_mpc.Prelude.{
  ℕ, zero, suc, List, [], ◌∷◌, map, length, ◌==◌, Bool, true, false, ◌&&◌, Option, none, some,
  zip_with,
}
use iris_mpc.Execution.Session.{◌>>=◌ as bind}
use iris_mpc.Shares.VecShare
use iris_mpc.Shares.VecShare.{VecShare, from_ab, flatten}
use iris_mpc.Protocol.Platform.{Platform}
use iris_mpc.Protocol.Program.{Program, ◌>>=◌, ◌>>◌, try}
use iris_mpc.Protocol.And.{guard, and_many_send, and_many_receive}

-- Along both vectors; what is longer in the first stays as it is.
unfoldable pub transposed_pack_xor_assign : List VecShare → List VecShare → List VecShare
transposed_pack_xor_assign [] ys = []
transposed_pack_xor_assign (x ∷ xs) [] = x ∷ xs
transposed_pack_xor_assign (x ∷ xs) (y ∷ ys) =
    VecShare.xor_assign x y ∷ transposed_pack_xor_assign xs ys

unfoldable pub transposed_pack_xor : List VecShare → List VecShare → List VecShare
transposed_pack_xor = zip_with VecShare.xor

unfoldable pub equal_sizes : List ℕ → List ℕ → Bool
equal_sizes [] [] = true
equal_sizes (m ∷ ms) (n ∷ ns) = m == n && equal_sizes ms ns
equal_sizes _ _ = false

-- `drain(..l)`: the first `l` elements and the rest; `none` is its panic when there are fewer.
unfoldable pub drain : {A : Type 0} → ℕ → List A → Option (List A × List A)
drain zero xs = some ([], xs)
drain (suc l) [] = none
drain (suc l) (x ∷ xs) = elim (drain l xs) [
  | none ↦ none
  | some (taken, left) ↦ some (x ∷ taken, left)
]

-- The loop over the sizes.
unfoldable pub rebuild : List ℕ → List ℕ → List ℕ → Option (List VecShare)
unfolding drain
rebuild [] shares_a shares_b = some []
rebuild (l ∷ sizes) shares_a shares_b = bind (drain l shares_a) λ (a, rest_a).
    bind (drain l shares_b)
      λ (b, rest_b). bind (rebuild sizes rest_a rest_b) λ res. some (from_ab a b ∷ res)

module _ {P : Platform} {R : Type 0} where
  unfoldable pub transposed_pack_and : List VecShare → List VecShare → Program P R (List VecShare)
  unfolding rebuild equal_sizes and_many_send and_many_receive
  transposed_pack_and x1 x2 = do
    guard (length x1 == length x2)
    guard (equal_sizes (map length x1) (map length x2))
    shares_a ← and_many_send (flatten x1) (flatten x2)
    shares_b ← and_many_receive
    try (rebuild (map length x1) shares_a shares_b)
