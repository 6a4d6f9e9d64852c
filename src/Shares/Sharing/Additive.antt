-- ===== src/Shares/Sharing/Additive.antt =====
-- Three numbers, one of each party, that add up to a value of the ring; and the replicated shares
-- that the parties have when each has sent its number to the next party.
use native.Mathlib.Nat.{zero-add, mod-eq_of_lt, mod_self}
use iris_mpc.Prelude.{ℕ, ◌+◌, ◌%◌, ◌^◌, ◌<◌, ◌≡◌, ◌∙◌, refl, ap, arith}
use iris_mpc.Prelude.Modular.{add_three, sub_three}
use iris_mpc.Id.{Trio, zip_trio}
use iris_mpc.Shares.RingElement.{wrapping_add, wrapping_sub, wrapping_mul}
use iris_mpc.Shares.Share.{Share, new, mul_local}
use iris_mpc.Shares.Sharing.{IsSharing}
use iris_mpc.Shares.Sharing.Linear.{mod-lt-pow, pow-pos}
use iris_mpc.Shares.Sharing.Vectors.{replicate}
use iris_mpc.Shares.Sharing.Product.{mul_local-sum, mul_local_lem}

pub record IsAdditive (k : ℕ) (z : Trio ℕ) (x : ℕ) : Type 0 where
  pub lt0 : z.p0 < 2 ^ k
  pub lt1 : z.p1 < 2 ^ k
  pub lt2 : z.p2 < 2 ^ k
  pub value : (z.p0 + z.p1 + z.p2) % 2 ^ k ≡ x

module _ (k : ℕ) {z w : Trio ℕ} {x y : ℕ} where
  pub add-IsAdditive :
      IsAdditive k z x
      → IsAdditive k w y
      → IsAdditive k (zip_trio (wrapping_add k) z w) (wrapping_add k x y)
  unfolding wrapping_add
  add-IsAdditive h g = record {
    lt0 = mod-lt-pow k _;
    lt1 = mod-lt-pow k _;
    lt2 = mod-lt-pow k _;
    value = rw (← h.value, ← g.value) (add_three (2 ^ k) z.p0 z.p1 z.p2 w.p0 w.p1 w.p2);
  }

  pub sub-IsAdditive :
      IsAdditive k z x
      → IsAdditive k w y
      → IsAdditive k (zip_trio (wrapping_sub k) z w) (wrapping_sub k x y)
  unfolding wrapping_sub
  sub-IsAdditive h g = record {
    lt0 = mod-lt-pow k _;
    lt1 = mod-lt-pow k _;
    lt2 = mod-lt-pow k _;
    value =
        rw (← h.value, ← g.value)
          (sub_three (2 ^ k) z.p0 z.p1 z.p2 w.p0 w.p1 w.p2 (pow-pos k) g.lt0 g.lt1 g.lt2);
  }

-- Each number less the previous party's number: a sharing of zero.
differences-IsAdditive :
    (k r0 r1 r2 : ℕ)
    → r0 < 2 ^ k
    → r1 < 2 ^ k
    → r2 < 2 ^ k
    → IsAdditive k
        (record { p0 = wrapping_sub k r0 r2; p1 = wrapping_sub k r1 r0; p2 = wrapping_sub k r2 r1 })
        0
unfolding wrapping_sub
differences-IsAdditive k r0 r1 r2 l0 l1 l2 = record {
  lt0 = mod-lt-pow k _;
  lt1 = mod-lt-pow k _;
  lt2 = mod-lt-pow k _;
  value =
      let e : r2 + r0 + r1 ≡ r0 + r1 + r2 = omega arith in
      sub_three (2 ^ k) r0 r1 r2 r2 r0 r1 (pow-pos k) l2 l0 l1
      ∙ rw e (ap (λ t. t % 2 ^ k) (omega (arith, mod-lt-pow k (r0 + r1 + r2))) ∙ mod_self (2 ^ k));
}

pub mul_local-IsAdditive :
    (k : ℕ) {s t : Trio Share} {x y : ℕ}
    → IsSharing k s x
    → IsSharing k t y
    → IsAdditive k (zip_trio (mul_local k) s t) (wrapping_mul k x y)
mul_local-IsAdditive k {s} {t} h g = record {
  lt0 = rw (mul_local_lem k s.p0 t.p0) (mod-lt-pow k _);
  lt1 = rw (mul_local_lem k s.p1 t.p1) (mod-lt-pow k _);
  lt2 = rw (mul_local_lem k s.p2 t.p2) (mod-lt-pow k _);
  value = mul_local-sum k h g;
}

-- The differences that hide a party's number.
abbrev pub masks : ℕ → Trio ℕ → Trio ℕ
masks k r = record {
  p0 = wrapping_sub k r.p0 r.p2;
  p1 = wrapping_sub k r.p1 r.p0;
  p2 = wrapping_sub k r.p2 r.p1;
}

-- Numbers under a sharing of zero add up to the same.
pub masked-IsAdditive :
    (k : ℕ) (r z : Trio ℕ) {x : ℕ}
    → r.p0 < 2 ^ k
    → r.p1 < 2 ^ k
    → r.p2 < 2 ^ k
    → IsAdditive k z x
    → IsAdditive k (zip_trio (wrapping_add k) (masks k r) z) x
unfolding wrapping_add
masked-IsAdditive k r z {x} l0 l1 l2 h =
    let sum = add-IsAdditive k (differences-IsAdditive k r.p0 r.p1 r.p2 l0 l1 l2) h in
    record {
      lt0 = sum.lt0;
      lt1 = sum.lt1;
      lt2 = sum.lt2;
      value =
          sum.value
          ∙ rw (zero-add x) (mod-eq_of_lt (rw (← h.value) (mod-lt-pow k (z.p0 + z.p1 + z.p2))));
    }

pub replicate-IsSharing :
    (k : ℕ) {z : Trio ℕ} {x : ℕ} → IsAdditive k z x → IsSharing k (replicate z) x
unfolding new
replicate-IsSharing k c = record {
  replicated = record { b0 = refl; b1 = refl; b2 = refl; lt0 = c.lt0; lt1 = c.lt1; lt2 = c.lt2 };
  value = c.value;
}
