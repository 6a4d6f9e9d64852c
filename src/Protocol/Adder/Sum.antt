-- ===== src/Protocol/Adder/Sum.antt =====
-- The circuits on bits add numbers.
use iris_mpc.Prelude.{
  ℕ, suc, ◌+◌, ◌*◌, ◌/◌, ◌≡◌, ◌∙◌, refl, ap, List, [], ◌∷◌, ◌++◌, map, length, length-map,
  length-append, map-append, append_assoc, Bool, ◌&&◌, true, false, arith,
}
use iris_mpc.Prelude.Bits.{bit_at, odd, to_nat, xor}
use iris_mpc.Id.{Trio}
use iris_mpc.Protocol.Adder.Circuit.{sum_bit, carry_bit, ripple}

-- The number of a row of bits, the lowest one first.
unfoldable pub value : List Bool → ℕ
value [] = 0
value (b ∷ bs) = to_nat b + 2 * value bs

full_adder :
    (a b c : Bool)
    → to_nat (xor a (xor b c)) + 2 * to_nat (xor (xor a c && xor b c) c)
      ≡ to_nat a + to_nat b + to_nat c
full_adder a b c = ground arith

-- The sums and twice the carries of three numbers add up to the numbers.
pub full_adder_sum :
    (ts : List (Trio Bool))
    → value (map (sum_bit xor ◌&&◌) ts) + 2 * value (map (carry_bit xor ◌&&◌) ts)
      ≡ value (map (λ t. t.p0) ts) + value (map (λ t. t.p1) ts) + value (map (λ t. t.p2) ts)
unfolding value
full_adder_sum [] = refl
full_adder_sum (t ∷ ts) = omega (arith, full_adder t.p0 t.p1 t.p2, full_adder_sum ts)

bit_at-double : (a : Bool) (n i : ℕ) → bit_at (to_nat a + 2 * n) (suc i) ≡ bit_at n i
bit_at-double a n i = ap (λ m. bit_at m i) (halve a)
  where
    halve : (a : Bool) → (to_nat a + 2 * n) / 2 ≡ n
    halve true = omega arith
    halve false = omega arith

-- One place of an addition: the sum's bit, and the carry.
place :
    (a b c : Bool)
    → to_nat a + to_nat b + to_nat c
      ≡ to_nat (xor (xor a b) c) + 2 * to_nat (xor c (xor a c && xor b c))
place a b c = ground arith

odd-to_nat :
    (a b c : Bool) (n : ℕ) → odd (to_nat a + (to_nat b + 2 * n) + to_nat c) ≡ xor (xor a b) c
odd-to_nat a b c n = ground arith

-- The bit where the first of two numbers ends, and the carry into it: what the second has above does
-- not matter.
pub ripple-bit :
    (c a b : Bool) (as' bs rest : List Bool)
    → length as' ≡ length bs
    → bit_at (value (as' ++ a ∷ []) + value (bs ++ b ∷ rest) + to_nat c) (length as')
      ≡ xor (xor a b) (ripple xor ◌&&◌ c as' bs)
unfolding value ripple
ripple-bit c a b [] [] rest e =
    ap (λ n. odd (n + (to_nat b + 2 * value rest) + to_nat c)) (omega arith)
    ∙ odd-to_nat a b c (value rest)
ripple-bit c a b [] (y ∷ bs) rest e = absurd (omega arith)
ripple-bit c a b (x ∷ as') [] rest e = absurd (omega arith)
ripple-bit c a b (x ∷ as') (y ∷ bs) rest e =
    ap (λ n. bit_at n (suc (length as'))) (omega (arith, place x y c))
    ∙ bit_at-double (xor (xor x y) c)
        (value (as' ++ a ∷ []) + value (bs ++ b ∷ rest) + to_nat (xor c (xor x c && xor y c)))
        (length as')
    ∙ ripple-bit (xor c (xor x c && xor y c)) a b as' bs rest (omega arith)

-- The first two positions of both rows.
low_places :
    (s0 s1 c0 : Bool) (a b : ℕ)
    → to_nat s0 + 2 * (to_nat s1 + 2 * a) + 2 * (to_nat c0 + 2 * b)
      ≡ to_nat s0 + 2 * (to_nat (xor s1 c0) + 2 * (a + b + to_nat (s1 && c0)))
low_places s0 s1 c0 a b = ground arith

low_bits :
    (s0 s1 c0 : Bool) (as' bs : List Bool) (i : ℕ)
    → bit_at (value (s0 ∷ s1 ∷ as') + 2 * value (c0 ∷ bs)) (suc (suc i))
      ≡ bit_at (value as' + value bs + to_nat (s1 && c0)) i
unfolding value
low_bits s0 s1 c0 as' bs i =
    ap (λ n. bit_at n (suc (suc i))) (low_places s0 s1 c0 (value as') (value bs))
    ∙ bit_at-double s0 (to_nat (xor s1 c0) + 2 * (value as' + value bs + to_nat (s1 && c0))) (suc i)
    ∙ bit_at-double (xor s1 c0) (value as' + value bs + to_nat (s1 && c0)) i

abbrev sum : Trio Bool → Bool
sum = sum_bit xor ◌&&◌

abbrev carry : Trio Bool → Bool
carry = carry_bit xor ◌&&◌

-- The sum of three rows of bits.
abbrev pub total : List (Trio Bool) → ℕ
total ts = value (map (λ t. t.p0) ts) + value (map (λ t. t.p1) ts) + value (map (λ t. t.p2) ts)

-- The highest position of the sum of three numbers.
pub msb-bit :
    (t0 t1 t u : Trio Bool) (r : List (Trio Bool))
    → bit_at (total (t0 ∷ t1 ∷ ((r ++ t ∷ []) ++ u ∷ []))) (suc (suc (length (r ++ t ∷ []))))
      ≡ xor
          (xor (sum u) (carry t))
          (ripple xor ◌&&◌ (sum t1 && carry t0) (map sum (r ++ t ∷ [])) (map carry (t1 ∷ r)))
msb-bit t0 t1 t u r =
    let pre = r ++ t ∷ [] in
    rw (← full_adder_sum (t0 ∷ t1 ∷ (pre ++ u ∷ []))) (
      low_bits (sum t0) (sum t1) (carry t0) (map sum (pre ++ u ∷ []))
        (carry t1 ∷ map carry (pre ++ u ∷ [])) (length pre)
      ∙ rw
          (
            map-append sum pre (u ∷ []),
            map-append carry pre (u ∷ []),
            map-append carry r (t ∷ []),
            append_assoc (map carry r) (carry t ∷ []) (carry u ∷ []),
            ← length-map sum pre,
          )
          (ripple-bit (sum t1 && carry t0) (sum u) (carry t) (map sum pre) (map carry (t1 ∷ r))
            (carry u ∷ [])
            (omega (arith, length-map sum pre, length-map carry r, length-append r (t ∷ [])))))

value-false : (xs : List Bool) → value (xs ++ false ∷ []) ≡ value xs
unfolding value
value-false [] = refl
value-false (x ∷ xs) = omega (arith, value-false xs)

ripple-snoc :
    (c a b : Bool) (as' bs : List Bool)
    → length as' ≡ length bs
    → ripple xor ◌&&◌ c (as' ++ a ∷ []) (bs ++ b ∷ [])
      ≡ (let d = ripple xor ◌&&◌ c as' bs in xor d (xor a d && xor b d))
unfolding ripple
ripple-snoc c a b [] [] e = refl
ripple-snoc c a b [] (y ∷ bs) e = absurd (omega arith)
ripple-snoc c a b (x ∷ as') [] e = absurd (omega arith)
ripple-snoc c a b (x ∷ as') (y ∷ bs) e =
    ripple-snoc (xor c (xor x c && xor y c)) a b as' bs (omega arith)

last_carry : (b d : Bool) → xor d (xor false d && xor b d) ≡ (b && d)
last_carry b d = ground arith

length-snoc : {A : Type 0} (xs : List A) (x : A) → length (xs ++ x ∷ []) ≡ suc (length xs)
length-snoc xs x = omega (arith, length-append xs (x ∷ []))

-- The two positions above the end of the first number.
pub ripple-carries :
    (c b : Bool) (as' bs : List Bool)
    → length as' ≡ length bs
    → let d = ripple xor ◌&&◌ c as' bs in
      let n = value as' + value (bs ++ b ∷ []) + to_nat c in
      (bit_at n (length as') ≡ xor b d) × (bit_at n (suc (length as')) ≡ (b && d))
ripple-carries c b as' bs e = (
  rw (value-false as') at (ripple-bit c false b as' bs [] e),
  rw
      (
        value-false (as' ++ false ∷ []),
        value-false as',
        value-false (bs ++ b ∷ []),
        length-snoc as' false,
        ripple-snoc c false b as' bs e,
        last_carry b (ripple xor ◌&&◌ c as' bs),
      )
      at
      (ripple-bit c false false (as' ++ false ∷ []) (bs ++ b ∷ []) []
        (omega (arith, e, length-snoc as' false, length-snoc bs b))),
)

-- The two carries of the sum of three numbers.
pub two_carries-bits :
    (t0 t1 u : Trio Bool) (r : List (Trio Bool))
    → let d = ripple xor ◌&&◌ (sum t1 && carry t0) (map sum (r ++ u ∷ [])) (map carry (t1 ∷ r)) in
      let n = total (t0 ∷ t1 ∷ (r ++ u ∷ [])) in
      (bit_at n (suc (suc (length (r ++ u ∷ [])))) ≡ xor (carry u) d)
      × (bit_at n (suc (suc (suc (length (r ++ u ∷ []))))) ≡ (carry u && d))
two_carries-bits t0 t1 u r =
    let k =
      ripple-carries (sum t1 && carry t0) (carry u) (map sum (r ++ u ∷ [])) (map carry (t1 ∷ r)) (
        omega
          (arith, length-map sum (r ++ u ∷ []), length-map carry r, length-append r (u ∷ []))) in
    let low =
      low_bits (sum t0) (sum t1) (carry t0) (map sum (r ++ u ∷ []))
        (carry t1 ∷ map carry (r ++ u ∷ [])) in
    rw (← full_adder_sum (t0 ∷ t1 ∷ (r ++ u ∷ [])), ← length-map sum (r ++ u ∷ []))
      (
        low (length (map sum (r ++ u ∷ []))) ∙ rw (map-append carry r (u ∷ [])) k.0,
        low (suc (length (map sum (r ++ u ∷ [])))) ∙ rw (map-append carry r (u ∷ [])) k.1,
      )
