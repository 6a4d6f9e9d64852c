-- ===== src/Network/Value.antt =====
-- iris-mpc-cpu/src/network/value.rs: the values that the parties exchange.
use iris_mpc.Prelude.{ℕ, List, Option, none, some}

pub data NetworkValue : Type 0 where
  prf_key : List ℕ → NetworkValue
  ring16 ring32 ring_element_bit ring_element16 ring_element32 ring_element64 : ℕ → NetworkValue
  vec_ring16 vec_ring32 vec_ring64 : List ℕ → NetworkValue

-- `TryFrom<NetworkValue> for Vec<RingElement<u16>>`
pub try_vec_ring16 : NetworkValue → Option (List ℕ)
try_vec_ring16 (vec_ring16 x) = some x
try_vec_ring16 _ = none
