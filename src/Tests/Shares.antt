-- ===== src/Tests/Shares.antt =====
-- Shares at concrete values.
use iris_mpc.Prelude.{refl, arith}
use iris_mpc.Id.{id0, id1, id2, Trio}
use iris_mpc.Shares.RingElement
use iris_mpc.Shares.Share.{Share, add_assign_const}
use iris_mpc.Shares.Sharing.{IsSharing}
use iris_mpc.Shares.Sharing.Linear.{add_assign_const-IsSharing}

-- Shares of 7 in 16 bits.
abbrev sevens : Trio Share
sevens = record {
  p0 = record { a = 65535; b = 6 };
  p1 = record { a = 2; b = 65535 };
  p2 = record { a = 6; b = 2 };
}

sevens-IsSharing : IsSharing 16 sevens 7
sevens-IsSharing = record {
  replicated = record {
    b0 = refl;
    b1 = refl;
    b2 = refl;
    lt0 = omega arith;
    lt1 = omega arith;
    lt2 = omega arith;
  };
  value = refl;
}

add_assign_const-IsSharing_example :
    IsSharing 16
      (record {
        p0 = add_assign_const 16 sevens.p0 32768 id0;
        p1 = add_assign_const 16 sevens.p1 32768 id1;
        p2 = add_assign_const 16 sevens.p2 32768 id2;
      })
      (RingElement.wrapping_add 16 7 32768)
add_assign_const-IsSharing_example = add_assign_const-IsSharing 16 32768 sevens-IsSharing
