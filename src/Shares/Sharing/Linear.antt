-- ===== src/Shares/Sharing/Linear.antt =====
-- What the parties do to additive shares alone they do to the shared values.
use native.Mathlib.Nat.{mod-lt, one-le-pow, zero-add, zero-mod}
use iris_mpc.Prelude.{ℕ, ◌%◌, ◌^◌, ◌<◌, arith}
use iris_mpc.Prelude.Modular.{add_three, sub_three, mul_three, shift_three}
use iris_mpc.Id.{id0, id1, id2, Trio, map_trio, zip_trio}
use iris_mpc.Shares.RingElement.{wrapping_add, wrapping_sub, wrapping_mul, wrapping_neg}
use iris_mpc.Shares.Share.{Share, add, sub, mul, neg, add_assign_const}
use iris_mpc.Shares.Sharing.{IsSharing}

pub mod-lt-pow : (k a : ℕ) → a % 2 ^ k < 2 ^ k
mod-lt-pow k a = mod-lt a (one-le-pow k 2 (omega arith))

pub pow-pos : (k : ℕ) → 0 < 2 ^ k
pow-pos k = one-le-pow k 2 (omega arith)

module _ (k : ℕ) {s t : Trio Share} {x y : ℕ} where
  -- The parties' sums of shares of `x` and of `y` are shares of the wrapped sum.
  add-IsSharing :
      IsSharing k s x → IsSharing k t y → IsSharing k (zip_trio (add k) s t) (wrapping_add k x y)
  unfolding add wrapping_add
  add-IsSharing hs ht = record {
    replicated = record {
      b0 = rw (hs.b0, ht.b0);
      b1 = rw (hs.b1, ht.b1);
      b2 = rw (hs.b2, ht.b2);
      lt0 = mod-lt-pow k _;
      lt1 = mod-lt-pow k _;
      lt2 = mod-lt-pow k _;
    };
    value =
        rw (← hs.value, ← ht.value) (add_three (2 ^ k) s.p0.a s.p1.a s.p2.a t.p0.a t.p1.a t.p2.a);
  }

  -- The parties' differences of shares of `x` and of `y` are shares of the wrapped difference.
  pub sub-IsSharing :
      IsSharing k s x → IsSharing k t y → IsSharing k (zip_trio (sub k) s t) (wrapping_sub k x y)
  unfolding sub wrapping_sub
  sub-IsSharing hs ht = record {
    replicated = record {
      b0 = rw (hs.b0, ht.b0);
      b1 = rw (hs.b1, ht.b1);
      b2 = rw (hs.b2, ht.b2);
      lt0 = mod-lt-pow k _;
      lt1 = mod-lt-pow k _;
      lt2 = mod-lt-pow k _;
    };
    value =
        rw (← hs.value, ← ht.value)
          (sub_three (2 ^ k) s.p0.a s.p1.a s.p2.a t.p0.a t.p1.a t.p2.a (pow-pos k) ht.lt0 ht.lt1
            ht.lt2);
  }

module _ (k : ℕ) {s : Trio Share} {x : ℕ} where
  -- Shares of `x` times a public element are shares of the wrapped product.
  pub mul-IsSharing :
      (c : ℕ) → IsSharing k s x → IsSharing k (map_trio (λ u. mul k u c) s) (wrapping_mul k x c)
  unfolding mul wrapping_mul
  mul-IsSharing c hs = record {
    replicated = record {
      b0 = rw hs.b0;
      b1 = rw hs.b1;
      b2 = rw hs.b2;
      lt0 = mod-lt-pow k _;
      lt1 = mod-lt-pow k _;
      lt2 = mod-lt-pow k _;
    };
    value = rw (← hs.value) (mul_three (2 ^ k) s.p0.a s.p1.a s.p2.a c);
  }

  -- The parties' negated shares of `x` are shares of the wrapped negation.
  neg-IsSharing : IsSharing k s x → IsSharing k (map_trio (neg k) s) (wrapping_neg k x)
  unfolding neg wrapping_neg
  neg-IsSharing hs = record {
    replicated = record {
      b0 = rw hs.b0;
      b1 = rw hs.b1;
      b2 = rw hs.b2;
      lt0 = mod-lt-pow k _;
      lt1 = mod-lt-pow k _;
      lt2 = mod-lt-pow k _;
    };
    value = rw (← hs.value) (
        simp (zero-add, zero-mod) at
          (sub_three (2 ^ k) 0 0 0 s.p0.a s.p1.a s.p2.a (pow-pos k) hs.lt0 hs.lt1 hs.lt2));
  }

  -- When each party adds a constant to its share of `x` by its identifier, the constant is added
  -- once, and the shares stay replicated.
  pub add_assign_const-IsSharing :
      (c : ℕ)
      → IsSharing k s x
      → IsSharing k
          (record {
            p0 = add_assign_const k s.p0 c id0;
            p1 = add_assign_const k s.p1 c id1;
            p2 = add_assign_const k s.p2 c id2;
          })
          (wrapping_add k x c)
  unfolding add_assign_const wrapping_add
  add_assign_const-IsSharing c hs = record {
    replicated = record {
      b0 = hs.b0;
      b1 = rw hs.b1;
      b2 = hs.b2;
      lt0 = mod-lt-pow k _;
      lt1 = hs.lt1;
      lt2 = hs.lt2;
    };
    value = rw (← hs.value) (shift_three (2 ^ k) s.p0.a s.p1.a s.p2.a c);
  }
