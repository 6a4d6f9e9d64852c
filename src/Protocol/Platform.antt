-- ===== src/Protocol/Platform.antt =====
-- The code outside the repository that the protocols stand on: the generator of the crate `aes_prng`
-- and the byte format of the crate `bincode`.
use iris_mpc.Prelude.{ℕ, ◌^◌, ◌<◌, ◌≡◌, List, Option, some}
use iris_mpc.Network.Value.{NetworkValue}

-- A generator is a value; `gen k` draws a number of `k` bits and gives the generator that follows.
-- What was serialized can be read back.
pub record Platform : Type 1 where
  pub AesRng : Type 0
  pub from_seed : List ℕ → AesRng
  pub gen : ℕ → AesRng → ℕ × AesRng
  pub gen-lt : (k : ℕ) (r : AesRng) → (gen k r).0 < 2 ^ k
  pub Bytes : Type 0
  pub serialize : NetworkValue → Bytes
  pub deserialize : Bytes → Option NetworkValue
  pub deserialize-serialize : (v : NetworkValue) → deserialize (serialize v) ≡ some v
  pub serialize_vec : List NetworkValue → Bytes
  pub deserialize_vec : Bytes → Option (List NetworkValue)
  pub deserialize_vec-serialize_vec :
      (vs : List NetworkValue) → deserialize_vec (serialize_vec vs) ≡ some vs
