-- ===== src/Shares/Sharing/Vectors.antt =====
-- The shares that the parties have when each has sent its component to the next party, one by one
-- and in vectors.
use iris_mpc.Prelude.{ℕ, ◌≡◌, refl, ap, List, [], ◌∷◌, map}
use iris_mpc.Id.{Trio, columns}
use iris_mpc.Shares.Share.{Share, new}
use iris_mpc.Shares.VecShare.{from_ab}

-- Each party has its own component and the previous party's.
abbrev pub replicate : Trio ℕ → Trio Share
replicate z = record { p0 = new z.p0 z.p2; p1 = new z.p1 z.p0; p2 = new z.p2 z.p1 }

-- What the parties put together of their own and the received components.
pub from_ab-columns :
    (zs : List (Trio ℕ))
    → let c = columns zs in
      let w = columns (map replicate zs) in
      (from_ab c.p0 c.p2 ≡ w.p0) × (from_ab c.p1 c.p0 ≡ w.p1) × (from_ab c.p2 c.p1 ≡ w.p2)
unfolding from_ab
from_ab-columns [] = (refl, refl, refl)
from_ab-columns (z ∷ zs) =
    let (e0, e1, e2) = from_ab-columns zs in
    (ap (◌∷◌ (new z.p0 z.p2)) e0, ap (◌∷◌ (new z.p1 z.p0)) e1, ap (◌∷◌ (new z.p2 z.p1)) e2)
