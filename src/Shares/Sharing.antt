-- ===== src/Shares/Sharing.antt =====
-- What the three parties' shares stand for together: a value of the ring, by addition or by
-- exclusive or of three components, of which each party holds its own and the previous party's.
pub mod Linear
pub mod Product
pub mod Xor
pub mod Vectors
pub mod Additive
pub mod Bits
use iris_mpc.Prelude.{ℕ, ◌+◌, ◌%◌, ◌^◌, ◌<◌, ◌≡◌, bit_xor}
use iris_mpc.Id.{Trio}
use iris_mpc.Shares.Share.{Share}

-- Each party's second component is the previous party's first one.
pub record IsReplicated (k : ℕ) (t : Trio Share) : Type 0 where
  pub b0 : t.p0.b ≡ t.p2.a
  pub b1 : t.p1.b ≡ t.p0.a
  pub b2 : t.p2.b ≡ t.p1.a
  pub lt0 : t.p0.a < 2 ^ k
  pub lt1 : t.p1.a < 2 ^ k
  pub lt2 : t.p2.a < 2 ^ k

-- The shares of `x` modulo `2 ^ k`.
pub record IsSharing (k : ℕ) (t : Trio Share) (x : ℕ) : Type 0 where
  pub replicated : IsReplicated k t
  pub open replicated use *
  pub value : (t.p0.a + t.p1.a + t.p2.a) % 2 ^ k ≡ x

-- The binary shares of the word `x`.
pub record IsXorSharing (k : ℕ) (t : Trio Share) (x : ℕ) : Type 0 where
  pub replicated : IsReplicated k t
  pub open replicated use *
  pub value : bit_xor (bit_xor t.p0.a t.p1.a) t.p2.a ≡ x
