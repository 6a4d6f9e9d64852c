-- ===== src/Shares/Sharing/Bits.antt =====
-- The bits of shared words, one by one.
use mathlib.Core.List.{flat_map}
use native.Mathlib.Nat.{pow-suc, div-div-eq-div-mul}
use iris_mpc.Prelude.{
  ℕ, zero, suc, ◌+◌, ◌*◌, ◌/◌, ◌%◌, ◌^◌, ◌<◌, ◌≡◌, ◌∙◌, refl, sym, ap, ap₂, fun_ext, Bool, true,
  false, ◌==◌, ◌&&◌, List, [], ◌∷◌, ◌++◌, map, map-append, map-tabulate, tabulate-AllPairs,
  append-AllPairs, take, take-map, zip_with, zip_with-tabulate, AllPairs, nil, cons, tabulate,
  bit_and, bit_xor, arith,
}
use iris_mpc.Prelude.Bits.{
  bit_at, odd, to_nat, xor, bit_and-step, bit_at-ext, bit_at-bit_and, bit_at-zero, bit_at-bit_xor,
}
use iris_mpc.Id.{Trio, map_trio}
use iris_mpc.Shares.RingElement.{get_bit_as_bit, bit_iter_from, bit_iter}
use iris_mpc.Shares.Share.{Share, new}
use iris_mpc.Shares.VecShare.{convert_to_bits, truncate}
use iris_mpc.Shares.Sharing.{IsXorSharing}

mul_swap : (n : ℕ) → n * 2 ≡ 2 * n
mul_swap n = omega arith

pub odd-shift : (a i : ℕ) → odd (a / 2 ^ i) ≡ bit_at a i
odd-shift a zero = ap odd (omega (arith))
odd-shift a (suc i) =
    ap odd (ap (λ d. a / d) (pow-suc 2 i ∙ mul_swap (2 ^ i)) ∙ sym (div-div-eq-div-mul a 2 (2 ^ i)))
    ∙ odd-shift (a / 2) i

bit_and_zero : (x : ℕ) → bit_and x 0 ≡ 0
bit_and_zero x =
    bit_at-ext _ _ λ i. rw (bit_at-bit_and x 0 i, bit_at-zero i) (and_false (bit_at x i))
  where
    and_false : (b : Bool) → (b && false) ≡ false
    and_false b = ground arith

pub bit_and_one : (x : ℕ) → bit_and x 1 ≡ x % 2
bit_and_one x = omega (arith, bit_and-step x 1, bit_and_zero (x / 2))

from_odd : (b : Bool) → elim b [ true ↦ 1 | false ↦ 0 ] ≡ to_nat b
from_odd true = refl
from_odd false = refl

pub get_bit_as_bit-bit_at : (a i : ℕ) → get_bit_as_bit a i ≡ to_nat (bit_at a i)
unfolding get_bit_as_bit
get_bit_as_bit-bit_at a i =
    ap (λ y. elim (y == 1) as (λ _. ℕ) [ true ↦ 1 | false ↦ 0 ]) (bit_and_one (a / 2 ^ i))
    ∙ from_odd (odd (a / 2 ^ i))
    ∙ ap to_nat (odd-shift a i)

bit_iter_from-tabulate :
    (k i a : ℕ) → bit_iter_from k i a ≡ tabulate k (λ j. get_bit_as_bit a (i + j))
unfolding bit_iter_from tabulate
bit_iter_from-tabulate zero i a = refl
bit_iter_from-tabulate (suc k) i a = ap₂ ◌∷◌ (ap (get_bit_as_bit a) (omega arith)) (
    bit_iter_from-tabulate k (i + 1) a
    ∙ ap (tabulate k) (fun_ext λ j. ap (get_bit_as_bit a) (omega arith)))

pub bit_iter-tabulate : (k a : ℕ) → bit_iter k a ≡ tabulate k (get_bit_as_bit a)
unfolding bit_iter
bit_iter-tabulate k a =
    bit_iter_from-tabulate k 0 a
    ∙ ap (tabulate k) (fun_ext λ j. ap (get_bit_as_bit a) (omega arith))

-- Bit `i` of a share, as a share of a bit.
abbrev pub bit_share : ℕ → Share → Share
bit_share i s = new (get_bit_as_bit s.a i) (get_bit_as_bit s.b i)

bool_xors :
    (p q r : Bool) → bit_xor (bit_xor (to_nat p) (to_nat q)) (to_nat r) ≡ to_nat (xor (xor p q) r)
bool_xors true true true = refl
bool_xors true true false = refl
bool_xors true false true = refl
bool_xors true false false = refl
bool_xors false true true = refl
bool_xors false true false = refl
bool_xors false false true = refl
bool_xors false false false = refl

to_nat-lt : (p : Bool) → to_nat p < 2
to_nat-lt p = ground arith

pub bit_share-IsXorSharing :
    (k i : ℕ) {t : Trio Share} {x : ℕ}
    → IsXorSharing k t x
    → IsXorSharing 1 (map_trio (bit_share i) t) (get_bit_as_bit x i)
unfolding new
bit_share-IsXorSharing k i {t} {x} h = record {
  replicated = record {
    b0 = rw h.b0 refl;
    b1 = rw h.b1 refl;
    b2 = rw h.b2 refl;
    lt0 = rw (get_bit_as_bit-bit_at t.p0.a i) (to_nat-lt (bit_at t.p0.a i));
    lt1 = rw (get_bit_as_bit-bit_at t.p1.a i) (to_nat-lt (bit_at t.p1.a i));
    lt2 = rw (get_bit_as_bit-bit_at t.p2.a i) (to_nat-lt (bit_at t.p2.a i));
  };
  value =
      rw
        (
          get_bit_as_bit-bit_at t.p0.a i,
          get_bit_as_bit-bit_at t.p1.a i,
          get_bit_as_bit-bit_at t.p2.a i,
          ← h.value,
          get_bit_as_bit-bit_at (bit_xor (bit_xor t.p0.a t.p1.a) t.p2.a) i,
          bit_at-bit_xor (bit_xor t.p0.a t.p1.a) t.p2.a i,
          bit_at-bit_xor t.p0.a t.p1.a i,
        )
        (bool_xors (bit_at t.p0.a i) (bit_at t.p1.a i) (bit_at t.p2.a i));
}

-- The bits of words, from the lowest of each word on, and the sharings of them.
abbrev pub bits_of : ℕ → List ℕ → List ℕ
bits_of k = flat_map (λ x. tabulate k (get_bit_as_bit x))

abbrev pub bit_trios : ℕ → List (Trio Share) → List (Trio Share)
bit_trios k = flat_map (λ t. tabulate k (λ i. map_trio (bit_share i) t))

pub bit_trios-IsXorSharing :
    (k : ℕ) {us : List (Trio Share)} {xs : List ℕ}
    → AllPairs (IsXorSharing k) us xs
    → AllPairs (IsXorSharing 1) (bit_trios k us) (bits_of k xs)
unfolding flat_map
bit_trios-IsXorSharing k nil = nil
bit_trios-IsXorSharing k (cons {a = t} {b = x} p ps) =
    append-AllPairs
      (tabulate-AllPairs k (λ i. map_trio (bit_share i) t) (get_bit_as_bit x)
        (λ i _. bit_share-IsXorSharing k i p))
      (bit_trios-IsXorSharing k ps)

-- What one party holds of the bits.
module _ (q : Trio Share → Share)
    (split : (i : ℕ) (t : Trio Share) → bit_share i (q t) ≡ q (map_trio (bit_share i) t)) where
  from_share-party :
      (k : ℕ) (t : Trio Share)
      → zip_with new (bit_iter k (q t).a) (bit_iter k (q t).b)
        ≡ map q (tabulate k (λ i. map_trio (bit_share i) t))
  from_share-party k t =
      rw
        (
          bit_iter-tabulate k (q t).a,
          bit_iter-tabulate k (q t).b,
          zip_with-tabulate new k (get_bit_as_bit (q t).a) (get_bit_as_bit (q t).b),
          map-tabulate q k (λ i. map_trio (bit_share i) t),
        )
        (ap (tabulate k) (fun_ext λ i. split i t))

  convert_to_bits-party :
      (k : ℕ) (us : List (Trio Share)) → convert_to_bits k (map q us) ≡ map q (bit_trios k us)
  unfolding convert_to_bits flat_map
  convert_to_bits-party k [] = refl
  convert_to_bits-party k (t ∷ us) =
      ap₂ ◌++◌ (from_share-party k t) (convert_to_bits-party k us)
      ∙ sym (map-append q (tabulate k (λ i. map_trio (bit_share i) t)) (bit_trios k us))

  truncate-party : (n : ℕ) (us : List (Trio Share)) → truncate (map q us) n ≡ map q (take n us)
  unfolding truncate
  truncate-party n us = take-map q n us

  pub first_bits-party :
      (k n : ℕ) (us : List (Trio Share))
      → truncate (convert_to_bits k (map q us)) n ≡ map q (take n (bit_trios k us))
  first_bits-party k n us = rw (convert_to_bits-party k us) (truncate-party n (bit_trios k us))

pub take-AllPairs :
    {A B : Type 0} {Q : A → B → Type 0} (n : ℕ) {us : List A} {xs : List B}
    → AllPairs Q us xs
    → AllPairs Q (take n us) (take n xs)
take-AllPairs zero h = nil
take-AllPairs (suc n) nil = nil
take-AllPairs (suc n) (cons p ps) = cons p (take-AllPairs n ps)
