-- ===== src/Tests/Setting.antt =====
-- A platform in which bytes are the values themselves and a generator is a number, and three local
-- sessions over it.
use iris_mpc.Prelude.{ℕ, ◌+◌, ◌*◌, ◌%◌, ◌^◌, refl, List, [], ◌∷◌, Option, none, some, arith}
use iris_mpc.Id.{Trio}
use iris_mpc.Execution.Role.{Identity}
use iris_mpc.Execution.Local.{generate_local_identities}
use iris_mpc.Network.Value.{NetworkValue}
use iris_mpc.Network.Local.{from_host_ids}
use iris_mpc.Network.Local.Queues.{Channels}
use iris_mpc.Network.Local.Leads.{Holds, idle}
use iris_mpc.Network.Local.Hosts.{from_host_ids-Holds}
use iris_mpc.Shares.Share.{Share}
use iris_mpc.Shares.Sharing.{IsSharing, IsXorSharing}
use iris_mpc.Shares.Sharing.Linear.{mod-lt-pow}
use iris_mpc.Protocol.Platform.{Platform}
use iris_mpc.Protocol.Prf.{Prf}
use iris_mpc.Protocol.Program.{Session}
use iris_mpc.Protocol.Local.{sessions, sessions-IsParties, generate_local_identities-Distinct}
use iris_mpc.Protocol.Run.{IsReady}

abbrev seed_sum : List ℕ → ℕ
seed_sum [] = 0
seed_sum (x ∷ xs) = x + 256 * seed_sum xs

abbrev read_one : List NetworkValue → Option NetworkValue
read_one (v ∷ []) = some v
read_one _ = none

abbrev pub toy : Platform
toy = record {
  AesRng = ℕ;
  from_seed = seed_sum;
  gen = λ k r. ((r * 1103515245 + 12345) % 2 ^ k, r + 1);
  gen-lt = λ k r. mod-lt-pow k _;
  Bytes = List NetworkValue;
  serialize = λ v. v ∷ [];
  deserialize = read_one;
  deserialize-serialize = λ v. refl;
  serialize_vec = λ vs. vs;
  deserialize_vec = λ b. some b;
  deserialize_vec-serialize_vec = λ vs. refl;
}

abbrev pub names : Trio Identity
names = generate_local_identities

abbrev pub generators : Trio (Prf toy)
generators = record {
  p0 = record { my_prf = 11; prev_prf = 13 };
  p1 = record { my_prf = 12; prev_prf = 11 };
  p2 = record { my_prf = 13; prev_prf = 12 };
}

abbrev pub local : Trio (Session toy)
local = sessions names generators

abbrev pub channels : Channels (List NetworkValue)
channels = from_host_ids (names.p0 ∷ names.p1 ∷ names.p2 ∷ [])

pub channels-idle : Holds names channels idle
channels-idle = from_host_ids-Holds names generate_local_identities-Distinct

pub local-IsReady : IsReady names local
local-IsReady = record {
  parties = sessions-IsParties names generators generate_local_identities-Distinct;
  synced = record { prev0 = refl; prev1 = refl; prev2 = refl };
}

-- Binary shares of 12: 5, 3 and 10.
abbrev pub word_shares : Trio Share
word_shares = record {
  p0 = record { a = 5; b = 10 };
  p1 = record { a = 3; b = 5 };
  p2 = record { a = 10; b = 3 };
}

pub word_shares-IsXorSharing : IsXorSharing 64 word_shares 12
word_shares-IsXorSharing = record {
  replicated = record {
    b0 = refl;
    b1 = refl;
    b2 = refl;
    lt0 = omega arith;
    lt1 = omega arith;
    lt2 = omega arith;
  };
  value = refl;
}

-- Shares of 18.
pub word_shares-IsSharing : IsSharing 32 word_shares 18
word_shares-IsSharing = record {
  replicated = record {
    b0 = refl;
    b1 = refl;
    b2 = refl;
    lt0 = omega arith;
    lt1 = omega arith;
    lt2 = omega arith;
  };
  value = refl;
}

-- Shares of 18 in 16 bits.
pub word_shares-IsSharing16 : IsSharing 16 word_shares 18
word_shares-IsSharing16 = record {
  replicated = record {
    b0 = refl;
    b1 = refl;
    b2 = refl;
    lt0 = omega arith;
    lt1 = omega arith;
    lt2 = omega arith;
  };
  value = refl;
}
