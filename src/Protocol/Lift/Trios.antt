-- ===== src/Protocol/Lift/Trios.antt =====
-- The three parties' results of `lift`, number by number.
use iris_mpc.Prelude.{
  ℕ, zero, suc, ◌+◌, ◌-◌, ◌*◌, ◌/◌, ◌%◌, ◌^◌, ◌<◌, ◌≡◌, refl, ap₂, List, [], ◌∷◌, map, length,
  tabulate, AllPairs, nil, cons, arith,
}
use native.Mathlib.Nat.{mod-eq_of_lt}
use iris_mpc.Prelude.Bits.{bit_at, to_nat}
use iris_mpc.Id.{Trio, map_trio, zip_trio}
use iris_mpc.Shares.RingElement.{wrapping_sub}
use iris_mpc.Shares.Share
use iris_mpc.Shares.Share.{Share, new}
use iris_mpc.Shares.VecShare.{sub_assign}
use iris_mpc.Shares.Sharing.{IsSharing}
use iris_mpc.Shares.Sharing.Linear.{sub-IsSharing}
use iris_mpc.Protocol.Convert.{mul_lift_2k, mul_lift_2k_many}
use iris_mpc.Protocol.Convert.Lift.{mul_lift_2k-IsSharing}
use iris_mpc.Protocol.Lift.{widen}
use iris_mpc.Protocol.Lift.Bits.{bit_at-digit}

-- The sum of the three components.
abbrev pub component_sum : Trio Share → ℕ
component_sum t = t.p0.a + t.p1.a + t.p2.a

abbrev pub lift_trio : Trio Share → Trio Share → Trio Share → Trio Share
lift_trio t u v =
    zip_trio (Share.sub 32)
      (zip_trio (Share.sub 32) (map_trio widen t) (map_trio (mul_lift_2k 16) u))
      (map_trio (mul_lift_2k 17) v)

abbrev pub lift_trios :
    List (Trio Share) → List (Trio Share) → List (Trio Share) → List (Trio Share)
lift_trios [] us vs = []
lift_trios (t ∷ ts) [] vs = []
lift_trios (t ∷ ts) (u ∷ us) [] = []
lift_trios (t ∷ ts) (u ∷ us) (v ∷ vs) = lift_trio t u v ∷ lift_trios ts us vs

-- What one party has.
module _ (q : Trio Share → Share)
    (split : (t u v : Trio Share)
      → Share.sub 32 (Share.sub 32 (widen (q t)) (mul_lift_2k 16 (q u))) (mul_lift_2k 17 (q v))
        ≡ q (lift_trio t u v)) where
  pub lift_trios-party :
      (ts us vs : List (Trio Share))
      → length us ≡ length ts
      → length vs ≡ length ts
      → sub_assign 32
          (sub_assign 32 (map widen (map q ts)) (mul_lift_2k_many 16 (map q us)))
          (mul_lift_2k_many 17 (map q vs))
        ≡ map q (lift_trios ts us vs)
  unfolding sub_assign mul_lift_2k_many
  lift_trios-party [] [] [] e f = refl
  lift_trios-party [] (u ∷ us) vs e f = absurd (omega arith)
  lift_trios-party [] [] (v ∷ vs) e f = absurd (omega arith)
  lift_trios-party (t ∷ ts) [] vs e f = absurd (omega arith)
  lift_trios-party (t ∷ ts) (u ∷ us) [] e f = absurd (omega arith)
  lift_trios-party (t ∷ ts) (u ∷ us) (v ∷ vs) e f =
      ap₂ ◌∷◌ (split t u v) (lift_trios-party ts us vs (omega arith) (omega arith))

widen-IsSharing :
    {t : Trio Share} {x : ℕ} → IsSharing 16 t x → IsSharing 32 (map_trio widen t) (component_sum t)
unfolding widen new
widen-IsSharing {t} h = record {
  replicated = record {
    b0 = h.b0;
    b1 = h.b1;
    b2 = h.b2;
    lt0 = omega (arith, h.lt0);
    lt1 = omega (arith, h.lt1);
    lt2 = omega (arith, h.lt2);
  };
  value = mod-eq_of_lt (omega (arith, h.lt0, h.lt1, h.lt2));
}

-- Without its two carries, the sum of three numbers of 16 bits is what it is with wrap-around.
without_carries :
    (s : ℕ)
    → s < 3 * 2 ^ 16
    → wrapping_sub 32
        (wrapping_sub 32 s ((to_nat (bit_at s 16) * 2 ^ 16) % 2 ^ 32))
        ((to_nat (bit_at s 17) * 2 ^ 17) % 2 ^ 32)
      ≡ s % 2 ^ 16
unfolding wrapping_sub
without_carries s h = rw (bit_at-digit s 16, bit_at-digit s 17) (digits s h)
  where
    digits :
        (s : ℕ)
        → s < 3 * 2 ^ 16
        → ((s + (2 ^ 32 - ((s / 2 ^ 16 % 2) * 2 ^ 16) % 2 ^ 32)) % 2 ^ 32
              + (2 ^ 32 - ((s / 2 ^ 17 % 2) * 2 ^ 17) % 2 ^ 32))
            % 2 ^ 32
          ≡ s % 2 ^ 16
    digits s h = omega arith

lift_trio-IsSharing :
    {t u v : Trio Share} {x : ℕ}
    → IsSharing 16 t x
    → IsSharing 16 u (to_nat (bit_at (component_sum t) 16))
    → IsSharing 16 v (to_nat (bit_at (component_sum t) 17))
    → IsSharing 32 (lift_trio t u v) x
lift_trio-IsSharing {t} {u} {v} h hu hv =
    rw (without_carries (component_sum t) (omega (arith, h.lt0, h.lt1, h.lt2)), h.value) at
      (sub-IsSharing 32
        (sub-IsSharing 32 (widen-IsSharing h) (mul_lift_2k-IsSharing 16 (omega arith) hu))
        (mul_lift_2k-IsSharing 17 (omega arith) hv))

pub lift_trios-IsSharing :
    (k : ℕ) (t : ℕ → Trio Share) (x : ℕ → ℕ) (us vs : List (Trio Share))
    → ((i : ℕ) → IsSharing 16 (t i) (x i))
    → AllPairs (IsSharing 16) us (tabulate k (λ i. to_nat (bit_at (component_sum (t i)) 16)))
    → AllPairs (IsSharing 16) vs (tabulate k (λ i. to_nat (bit_at (component_sum (t i)) 17)))
    → AllPairs (IsSharing 32) (lift_trios (tabulate k t) us vs) (tabulate k x)
unfolding tabulate
lift_trios-IsSharing zero t x us vs h hus hvs = nil
lift_trios-IsSharing (suc k) t x [] vs h hus hvs = elim hus [ ]
lift_trios-IsSharing (suc k) t x (u ∷ us) [] h hus hvs = elim hvs [ ]
lift_trios-IsSharing (suc k) t x (u ∷ us) (v ∷ vs) h (cons p ps) (cons q qs) =
    cons (lift_trio-IsSharing (h 0) p q)
      (lift_trios-IsSharing k (λ i. t (suc i)) (λ i. x (suc i)) us vs (λ i. h (suc i)) ps qs)
