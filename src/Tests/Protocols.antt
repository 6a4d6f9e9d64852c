-- ===== src/Tests/Protocols.antt =====
-- The protocols between three local sessions.
use iris_mpc.Prelude.{
  AllPairs, some, ℕ, ◌≡◌, refl, List, [], ◌∷◌, zip_with, bit_and, nil, cons, arith,
}
use iris_mpc.Id.{Trio, map_trio, zip_trio, columns}
use iris_mpc.Network.Local.{here}
use iris_mpc.Shares.RingElement.{wrapping_sub, wrapping_mul}
use iris_mpc.Shares.Share.{Share}
use iris_mpc.Shares.Sharing.{IsSharing, IsXorSharing}
use iris_mpc.Shares.Sharing.Additive.{IsAdditive}
use iris_mpc.Protocol.Prf.Zero.{IsSynced}
use iris_mpc.Protocol.Program.{Program}
use iris_mpc.Protocol.Open.{open_bin}
use iris_mpc.Protocol.And.{and_many}
use iris_mpc.Protocol.And.Correct.{AreXorShares}
use iris_mpc.Protocol.Ops.{cross_mul, galois_ring_to_rep3, setup_replicated_prf}
use iris_mpc.Protocol.Ops.Rep3.{AreShares}
use iris_mpc.Protocol.Ends.{
  begin, EndsFrom, open_bin_ends, and_many_ends, cross_mul_ends, galois_ring_to_rep3_ends,
  setup_replicated_prf_ends,
}
use iris_mpc.Protocol.Pack.{transposed_pack_and}
use iris_mpc.Protocol.Pack.Correct.{chunk_columns, AreXorChunks}
use iris_mpc.Protocol.Ends.Pack.{transposed_pack_and_ends}
use iris_mpc.Protocol.Ends.Inject.{bit_inject_ot_2round_ends}
use iris_mpc.Protocol.Inject.{bit_inject_ot_2round}
use iris_mpc.Protocol.Convert.{a2b_pre}
use iris_mpc.Protocol.Convert.Parts.{Parts, a2b_pre-Parts}
use iris_mpc.Tests.Setting.{
  toy, names, local, channels, channels-idle, local-IsReady, word_shares, word_shares-IsXorSharing,
  word_shares-IsSharing,
}

-- Binary shares of 1: 1, 1 and 1.
abbrev bit_shares : Trio Share
bit_shares = record {
  p0 = record { a = 1; b = 1 };
  p1 = record { a = 1; b = 1 };
  p2 = record { a = 1; b = 1 };
}

bit_shares-IsXorSharing : IsXorSharing 1 bit_shares 1
bit_shares-IsXorSharing = record {
  replicated = record {
    b0 = refl;
    b1 = refl;
    b2 = refl;
    lt0 = omega arith;
    lt1 = omega arith;
    lt2 = omega arith;
  };
  value = refl;
}

components-IsAdditive : IsAdditive 16 (record { p0 = 65535; p1 = 3; p2 = 10 }) 12
components-IsAdditive = record {
  lt0 = omega arith;
  lt1 = omega arith;
  lt2 = omega arith;
  value = refl;
}

open_bin_ends_example :
    EndsFrom names
      (begin (map_trio open_bin bit_shares) local channels)
      (λ v. v ≡ record { p0 = 1; p1 = 1; p2 = 1 })
open_bin_ends_example =
    open_bin_ends names local channels bit_shares 1
      (begin (map_trio open_bin bit_shares) local channels) local-IsReady.parties
      bit_shares-IsXorSharing channels-idle here

and_many_ends_example :
    EndsFrom names
      (begin
        (zip_trio and_many (columns (word_shares ∷ [])) (columns (word_shares ∷ [])))
        local
        channels)
      (AreXorShares 64 (zip_with bit_and (12 ∷ []) (12 ∷ [])))
and_many_ends_example =
    and_many_ends names local channels (word_shares ∷ []) (word_shares ∷ []) (12 ∷ []) (12 ∷ [])
      (begin (zip_trio and_many (columns (word_shares ∷ [])) (columns (word_shares ∷ []))) local
        channels)
      local-IsReady (cons word_shares-IsXorSharing nil) (cons word_shares-IsXorSharing nil) refl
      channels-idle here

-- Each party multiplies its shares of 18.
abbrev products : Trio (Program toy Share Share)
products = record {
  p0 = cross_mul word_shares.p0 word_shares.p0 word_shares.p0 word_shares.p0;
  p1 = cross_mul word_shares.p1 word_shares.p1 word_shares.p1 word_shares.p1;
  p2 = cross_mul word_shares.p2 word_shares.p2 word_shares.p2 word_shares.p2;
}

cross_mul_ends_example :
    EndsFrom names
      (begin products local channels)
      (λ v. IsSharing 32 v (wrapping_sub 32 (wrapping_mul 32 18 18) (wrapping_mul 32 18 18)))
cross_mul_ends_example =
    cross_mul_ends names local channels word_shares word_shares word_shares word_shares 18 18 18 18
      (begin products local channels) local-IsReady word_shares-IsSharing word_shares-IsSharing
      word_shares-IsSharing word_shares-IsSharing channels-idle here

abbrev components : Trio ℕ
components = record { p0 = 65535; p1 = 3; p2 = 10 }

galois_ring_to_rep3_ends_example :
    EndsFrom names
      (begin (map_trio galois_ring_to_rep3 (columns (components ∷ []))) local channels)
      (AreShares 16 (12 ∷ []))
galois_ring_to_rep3_ends_example =
    galois_ring_to_rep3_ends names local channels (components ∷ []) (12 ∷ [])
      (begin (map_trio galois_ring_to_rep3 (columns (components ∷ []))) local channels)
      local-IsReady (cons components-IsAdditive nil) channels-idle here

abbrev seeds : Trio (List ℕ)
seeds = record { p0 = 7 ∷ []; p1 = 8 ∷ []; p2 = 9 ∷ [] }

setup_replicated_prf_ends_example :
    EndsFrom names (begin (map_trio setup_replicated_prf seeds) local channels) IsSynced
setup_replicated_prf_ends_example =
    setup_replicated_prf_ends names local channels seeds
      (begin (map_trio setup_replicated_prf seeds) local channels) local-IsReady.parties
      channels-idle here

bit_inject_ot_2round_ends_example :
    EndsFrom names
      (begin (map_trio bit_inject_ot_2round (columns (bit_shares ∷ []))) local channels)
      (AreShares 16 (1 ∷ []))
bit_inject_ot_2round_ends_example =
    bit_inject_ot_2round_ends names local channels (bit_shares ∷ []) (1 ∷ [])
      (begin (map_trio bit_inject_ot_2round (columns (bit_shares ∷ []))) local channels)
      local-IsReady (cons bit_shares-IsXorSharing nil) channels-idle here

a2b_pre-Parts_example :
    (q : Trio (Share × Share × Share)) × (a2b_pre local.p0.boot_session word_shares.p0 ≡ some q.p0)
    × (a2b_pre local.p1.boot_session word_shares.p1 ≡ some q.p1)
    × (a2b_pre local.p2.boot_session word_shares.p2 ≡ some q.p2)
    × Parts 32 18 q
a2b_pre-Parts_example =
    a2b_pre-Parts names local 32 word_shares 18 local-IsReady.parties word_shares-IsSharing

-- Two chunks, of two words and of one.
abbrev chunks : List (List (Trio Share))
chunks = (word_shares ∷ word_shares ∷ []) ∷ (word_shares ∷ []) ∷ []

abbrev words : List (List ℕ)
words = (12 ∷ 12 ∷ []) ∷ (12 ∷ []) ∷ []

chunks-AllPairs : AllPairs (AllPairs (IsXorSharing 64)) chunks words
chunks-AllPairs =
    cons (cons word_shares-IsXorSharing (cons word_shares-IsXorSharing nil))
      (cons (cons word_shares-IsXorSharing nil) nil)

transposed_pack_and_ends_example :
    EndsFrom names
      (begin
        (zip_trio transposed_pack_and (chunk_columns chunks) (chunk_columns chunks))
        local
        channels)
      (AreXorChunks 64 (zip_with (zip_with bit_and) words words))
transposed_pack_and_ends_example =
    transposed_pack_and_ends names local channels chunks chunks words words
      (begin (zip_trio transposed_pack_and (chunk_columns chunks) (chunk_columns chunks)) local
        channels)
      local-IsReady chunks-AllPairs chunks-AllPairs refl channels-idle here
