-- ===== src/Protocol/Extract/Parts.antt =====
-- The parts of rows of shares: binary shares of each component's words.
use iris_mpc.Prelude.{ℕ, ◌≡◌, ◌∙◌, refl, List, [], ◌∷◌, map, some}
use iris_mpc.Prelude.Bits.{bit_xor_zero, zero_bit_xor}
use iris_mpc.Id.{id0, id1, id2, to_usize, Trio}
use iris_mpc.Execution.Role.{Identity}
use iris_mpc.Execution.Session.{BootSession}
use iris_mpc.Shares.Share.{Share, zero_share}
use iris_mpc.Shares.Sharing.{IsReplicated, IsXorSharing}
use iris_mpc.Shares.Sharing.Linear.{pow-pos}
use iris_mpc.Protocol.Platform.{Platform}
use iris_mpc.Protocol.Program.{Session}
use iris_mpc.Protocol.Run.{IsParties}
use iris_mpc.Protocol.Convert.{a2b_pre}
use iris_mpc.Protocol.Extract.{a2b_row, a2b_rows}

-- The binary shares of the first, the second and the third party's component.
abbrev pub part1 : Trio Share → Trio Share
part1 t = record {
  p0 = record { a = t.p0.a; b = 0 };
  p1 = record { a = 0; b = t.p1.b };
  p2 = record { a = 0; b = 0 };
}

abbrev pub part2 : Trio Share → Trio Share
part2 t = record {
  p0 = record { a = 0; b = 0 };
  p1 = record { a = t.p1.a; b = 0 };
  p2 = record { a = 0; b = t.p2.b };
}

abbrev pub part3 : Trio Share → Trio Share
part3 t = record {
  p0 = record { a = 0; b = t.p0.b };
  p1 = record { a = 0; b = 0 };
  p2 = record { a = t.p2.a; b = 0 };
}

module _ (k : ℕ) {t : Trio Share} (h : IsReplicated k t) where
  pub part1-IsXorSharing : IsXorSharing k (part1 t) t.p0.a
  part1-IsXorSharing = record {
    replicated = record {
      b0 = refl;
      b1 = h.b1;
      b2 = refl;
      lt0 = h.lt0;
      lt1 = pow-pos k;
      lt2 = pow-pos k;
    };
    value = bit_xor_zero _ ∙ bit_xor_zero t.p0.a;
  }

  pub part2-IsXorSharing : IsXorSharing k (part2 t) t.p1.a
  part2-IsXorSharing = record {
    replicated = record {
      b0 = refl;
      b1 = refl;
      b2 = h.b2;
      lt0 = pow-pos k;
      lt1 = h.lt1;
      lt2 = pow-pos k;
    };
    value = bit_xor_zero _ ∙ zero_bit_xor t.p1.a;
  }

  pub part3-IsXorSharing : IsXorSharing k (part3 t) t.p2.a
  part3-IsXorSharing = record {
    replicated = record {
      b0 = h.b0;
      b1 = refl;
      b2 = refl;
      lt0 = pow-pos k;
      lt1 = pow-pos k;
      lt2 = h.lt2;
    };
    value = zero_bit_xor t.p2.a;
  }

-- What one party computes.
module _ (q : Trio Share → Share) (session : BootSession)
    (one : (t : Trio Share)
      → a2b_pre session (q t) ≡ some (q (part1 t), q (part2 t), q (part3 t))) where
  a2b_row-party :
      (ts : List (Trio Share))
      → a2b_row session (map q ts)
        ≡ some (map q (map part1 ts), map q (map part2 ts), map q (map part3 ts))
  unfolding a2b_row
  a2b_row-party [] = refl
  a2b_row-party (t ∷ ts) = rw (one t, a2b_row-party ts) refl

  a2b_rows-party :
      (ts : List (List (Trio Share)))
      → a2b_rows session (map (map q) ts)
        ≡ some (
          map (map q) (map (map part1) ts),
          map (map q) (map (map part2) ts),
          map (map q) (map (map part3) ts),
        )
  unfolding a2b_rows
  a2b_rows-party [] = refl
  a2b_rows-party (t ∷ ts) = rw (a2b_row-party t, a2b_rows-party ts) refl

-- What all three parties compute.
module _ {P : Platform} (ids : Trio Identity) (s : Trio (Session P)) (h : IsParties ids s)
    (ts : List (List (Trio Share))) where
  pub a2b_rows-party0 :
      a2b_rows s.p0.boot_session (map (map (λ t. t.p0)) ts)
      ≡ some (
        map (map (λ t. t.p0)) (map (map part1) ts),
        map (map (λ t. t.p0)) (map (map part2) ts),
        map (map (λ t. t.p0)) (map (map part3) ts),
      )
  unfolding a2b_pre to_usize zero_share
  a2b_rows-party0 = a2b_rows-party (λ t. t.p0) s.p0.boot_session (λ t. rw (h.role id0) refl) ts

  pub a2b_rows-party1 :
      a2b_rows s.p1.boot_session (map (map (λ t. t.p1)) ts)
      ≡ some (
        map (map (λ t. t.p1)) (map (map part1) ts),
        map (map (λ t. t.p1)) (map (map part2) ts),
        map (map (λ t. t.p1)) (map (map part3) ts),
      )
  unfolding a2b_pre to_usize zero_share
  a2b_rows-party1 = a2b_rows-party (λ t. t.p1) s.p1.boot_session (λ t. rw (h.role id1) refl) ts

  pub a2b_rows-party2 :
      a2b_rows s.p2.boot_session (map (map (λ t. t.p2)) ts)
      ≡ some (
        map (map (λ t. t.p2)) (map (map part1) ts),
        map (map (λ t. t.p2)) (map (map part2) ts),
        map (map (λ t. t.p2)) (map (map part3) ts),
      )
  unfolding a2b_pre to_usize zero_share
  a2b_rows-party2 = a2b_rows-party (λ t. t.p2) s.p2.boot_session (λ t. rw (h.role id2) refl) ts
