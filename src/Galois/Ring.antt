-- ===== src/Galois/Ring.antt =====
-- The laws of the ring.
use iris_mpc.Prelude.{ℕ, ◌+◌, ◌*◌, ◌%◌, ◌≡◌, ◌∙◌, refl, sym, ap, arith}
use iris_mpc.Prelude.Modular.{mod-mul-mod}
use iris_mpc.Shares.RingElement.{wrapping_add, wrapping_mul}
use iris_mpc.Galois.{Monomial, from_coefs, ◌+%◌, ◌*%◌, add, mul, zero_element, one_element}

-- The elements before any wrap-around.
abbrev pub raw_add : Monomial → Monomial → Monomial
raw_add x y = from_coefs (x.c0 + y.c0) (x.c1 + y.c1) (x.c2 + y.c2) (x.c3 + y.c3)

abbrev pub raw_mul : Monomial → Monomial → Monomial
raw_mul x y =
    from_coefs (x.c0 * y.c0 + x.c1 * y.c3 + x.c2 * y.c2 + x.c3 * y.c1)
      (x.c0 * y.c1
        + x.c1 * y.c0
        + x.c1 * y.c3
        + x.c2 * y.c2
        + x.c3 * y.c1
        + x.c2 * y.c3
        + x.c3 * y.c2)
      (x.c0 * y.c2 + x.c1 * y.c1 + x.c2 * y.c0 + x.c2 * y.c3 + x.c3 * y.c2 + x.c3 * y.c3)
      (x.c0 * y.c3 + x.c1 * y.c2 + x.c2 * y.c1 + x.c3 * y.c0 + x.c3 * y.c3)

-- The wrap-around of every coefficient.
abbrev pub reduce : Monomial → Monomial
reduce x = from_coefs (x.c0 % 65536) (x.c1 % 65536) (x.c2 % 65536) (x.c3 % 65536)

pub same : {x y : Monomial} → x.c0 ≡ y.c0 → x.c1 ≡ y.c1 → x.c2 ≡ y.c2 → x.c3 ≡ y.c3 → x ≡ y
same e0 e1 e2 e3 = cc

pub add-reduce : (x y : Monomial) → add x y ≡ reduce (raw_add x y)
unfolding add ◌+%◌ wrapping_add
add-reduce x y = refl

pub mul-reduce : (x y : Monomial) → mul x y ≡ reduce (raw_mul x y)
unfolding mul ◌+%◌ ◌*%◌ wrapping_add wrapping_mul
mul-reduce x y = same (omega arith) (omega arith) (omega arith) (omega arith)

raw_mul_comm : (x y : Monomial) → raw_mul x y ≡ raw_mul y x
raw_mul_comm x y = same (omega arith) (omega arith) (omega arith) (omega arith)

raw_mul_assoc : (x y z : Monomial) → raw_mul (raw_mul x y) z ≡ raw_mul x (raw_mul y z)
raw_mul_assoc x y z = same (omega arith) (omega arith) (omega arith) (omega arith)

raw_mul_add : (x y z : Monomial) → raw_mul x (raw_add y z) ≡ raw_add (raw_mul x y) (raw_mul x z)
raw_mul_add x y z = same (omega arith) (omega arith) (omega arith) (omega arith)

reduce-mul_left : (x y : Monomial) → reduce (raw_mul (reduce x) y) ≡ reduce (raw_mul x y)
reduce-mul_left x y =
    let w : (a b : ℕ) → ((a % 65536) * b) % 65536 ≡ (a * b) % 65536 =
      λ a b. mod-mul-mod a b 65536 in
    same (omega (arith, w x.c0 y.c0, w x.c1 y.c3, w x.c2 y.c2, w x.c3 y.c1))
      (omega (
        arith,
        w x.c0 y.c1,
        w x.c1 y.c0,
        w x.c1 y.c3,
        w x.c2 y.c2,
        w x.c3 y.c1,
        w x.c2 y.c3,
        w x.c3 y.c2,
      ))
      (omega (arith, w x.c0 y.c2, w x.c1 y.c1, w x.c2 y.c0, w x.c2 y.c3, w x.c3 y.c2, w x.c3 y.c3))
      (omega (arith, w x.c0 y.c3, w x.c1 y.c2, w x.c2 y.c1, w x.c3 y.c0, w x.c3 y.c3))

reduce-mul_right : (x y : Monomial) → reduce (raw_mul x (reduce y)) ≡ reduce (raw_mul x y)
reduce-mul_right x y =
    ap reduce (raw_mul_comm x (reduce y)) ∙ reduce-mul_left y x ∙ ap reduce (raw_mul_comm y x)

pub reduce-add_both :
    (x y : Monomial) → reduce (raw_add (reduce x) (reduce y)) ≡ reduce (raw_add x y)
reduce-add_both x y = same (omega arith) (omega arith) (omega arith) (omega arith)

pub mul-reduce_left : (x y : Monomial) → mul (reduce x) y ≡ mul x y
mul-reduce_left x y = mul-reduce (reduce x) y ∙ reduce-mul_left x y ∙ sym (mul-reduce x y)

pub mul_comm : (x y : Monomial) → mul x y ≡ mul y x
mul_comm x y = mul-reduce x y ∙ ap reduce (raw_mul_comm x y) ∙ sym (mul-reduce y x)

pub mul-reduce_right : (x y : Monomial) → mul x (reduce y) ≡ mul x y
mul-reduce_right x y = mul_comm x (reduce y) ∙ mul-reduce_left y x ∙ mul_comm y x

pub mul_assoc : (x y z : Monomial) → mul (mul x y) z ≡ mul x (mul y z)
mul_assoc x y z =
    rw (mul-reduce x y, mul-reduce y z, mul-reduce_left (raw_mul x y) z)
      (mul-reduce (raw_mul x y) z
        ∙ ap reduce (raw_mul_assoc x y z)
        ∙ sym (mul-reduce x (raw_mul y z))
        ∙ sym (mul-reduce_right x (raw_mul y z)))

mul-add : (x y z : Monomial) → mul x (add y z) ≡ add (mul x y) (mul x z)
mul-add x y z =
    rw (add-reduce y z, mul-reduce_right x (raw_add y z), mul-reduce x y, mul-reduce x z)
      (mul-reduce x (raw_add y z)
        ∙ ap reduce (raw_mul_add x y z)
        ∙ sym (reduce-add_both (raw_mul x y) (raw_mul x z))
        ∙ sym (add-reduce (reduce (raw_mul x y)) (reduce (raw_mul x z))))

add_comm : (x y : Monomial) → add x y ≡ add y x
unfolding add ◌+%◌ wrapping_add
add_comm x y = same (omega arith) (omega arith) (omega arith) (omega arith)

add_assoc : (x y z : Monomial) → add (add x y) z ≡ add x (add y z)
unfolding add ◌+%◌ wrapping_add
add_assoc x y z = same (omega arith) (omega arith) (omega arith) (omega arith)

-- Addition and multiplication are commutative and associative, multiplication distributes over
-- addition, and adding 0 or multiplying by 1 changes no element whose four numbers have 16 bits.
pub add-mul-laws :
    (x y z : Monomial)
    → reduce x ≡ x
    → (add x y ≡ add y x)
      × (add (add x y) z ≡ add x (add y z))
      × (mul x y ≡ mul y x)
      × (mul (mul x y) z ≡ mul x (mul y z))
      × (mul x (add y z) ≡ add (mul x y) (mul x z))
      × (add x zero_element ≡ x)
      × (mul x one_element ≡ x)
add-mul-laws x y z h = (
  add_comm x y,
  add_assoc x y z,
  mul_comm x y,
  mul_assoc x y z,
  mul-add x y z,
  add-reduce x zero_element ∙ same (omega arith) (omega arith) (omega arith) (omega arith) ∙ h,
  mul-reduce x one_element ∙ same (omega arith) (omega arith) (omega arith) (omega arith) ∙ h,
)
