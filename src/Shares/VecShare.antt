-- ===== src/Shares/VecShare.antt =====
-- iris-mpc-cpu/src/shares/vecshare.rs: vectors of shares. A `VecShare` and a slice of one are lists.
use mathlib.Core.List.{foldl, flat_map}
use iris_mpc.Prelude.{
  ℕ, List, [], ◌∷◌, map, Option, none, some, take, drop, zip_with, get_elem?, length, ltb,
  if◌then◌else◌,
}
use iris_mpc.Shares.RingElement.{bit_iter}
use iris_mpc.Shares.Share
use iris_mpc.Shares.Share.{Share}

abbrev pub VecShare : Type 0
VecShare = List Share

-- The last share and those before it.
unfoldable pub pop : {A : Type 0} → List A → Option (List A × A)
pop [] = none
pop (s ∷ []) = some ([], s)
pop (s ∷ t ∷ r) = elim (pop (t ∷ r)) [ none ↦ none | some (front, last) ↦ some (s ∷ front, last) ]

unfoldable pub sum : ℕ → VecShare → Share
sum k = foldl (Share.add k) Share.zero_share

unfoldable pub not_inplace : ℕ → VecShare → VecShare
not_inplace k = map (Share.not k)

-- Both sides of the position `mid`; `none` is the panic beyond the end of the vector.
unfoldable pub split_at : VecShare → ℕ → Option (VecShare × VecShare)
split_at v mid = if ltb (length v) mid then none else some (take mid v, drop mid v)

-- `none` is the panic of an index out of range.
unfoldable pub get_at : VecShare → ℕ → Option Share
get_at = get_elem?

unfoldable pub from_ab : List ℕ → List ℕ → VecShare
from_ab = zip_with Share.new

unfoldable pub flatten : List VecShare → VecShare
flatten = flat_map (λ v. v)

unfoldable pub convert_to_bits : ℕ → VecShare → VecShare
convert_to_bits k = flat_map (λ s. zip_with Share.new (bit_iter k s.a) (bit_iter k s.b))

unfoldable pub from_share : ℕ → Share → VecShare
from_share k s = zip_with Share.new (bit_iter k s.a) (bit_iter k s.b)

unfoldable pub truncate : VecShare → ℕ → VecShare
truncate v len = take len v

-- A new vector is as long as the shorter one.
unfoldable pub xor : VecShare → VecShare → VecShare
xor = zip_with Share.xor

-- An assignment in place goes along both vectors, and leaves what is longer in the first as it is.
abbrev pub assign_with : (Share → Share → Share) → VecShare → VecShare → VecShare
assign_with f [] ys = []
assign_with f (x ∷ xs) [] = x ∷ xs
assign_with f (x ∷ xs) (y ∷ ys) = f x y ∷ assign_with f xs ys

unfoldable pub add_assign : ℕ → VecShare → VecShare → VecShare
add_assign k = assign_with (Share.add k)

unfoldable pub sub_assign : ℕ → VecShare → VecShare → VecShare
sub_assign k = assign_with (Share.sub k)

unfoldable pub xor_assign : VecShare → VecShare → VecShare
xor_assign = assign_with Share.xor
