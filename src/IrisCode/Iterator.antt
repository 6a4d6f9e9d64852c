-- ===== src/IrisCode/Iterator.antt =====
-- The iterator over the bits gives every bit in order.
use iris_mpc.Prelude.{
  ℕ, zero, suc, ◌+◌, ◌/◌, ◌%◌, ◌^◌, ◌<◌, ◌≡◌, ◌≢◌, ◌∙◌, refl, sym, ap, ap₂, Bool, true, ltb, ◌==◌,
  if◌then◌else◌, List, [], ◌∷◌, some, none, tabulate, tabulate-agree, arith,
}
use native.Mathlib.Nat.{pow-suc, div-div-eq-div-mul}
use iris_mpc.IrisCode.{IrisCodeArray, get_bit, Bits, bits, next}

-- The values of an iterator, up to `fuel` of them.
unfoldable pub collect : ℕ → Bits → List Bool
collect zero it = []
collect (suc fuel) it = elim (next it) [ none ↦ [] | some y ↦ y.0 ∷ collect fuel y.1 ]

-- Before the bit at the position `n`: within a word, what is left of it.
record IsAt (array : IrisCodeArray) (it : Bits) (n : ℕ) : Type 0 where
  whole : it.code ≡ array
  index : it.index ≡ n
  current : n % 64 ≢ 0 → it.current ≡ array (n / 64) / 2 ^ (n % 64)

abbrev word_at : IrisCodeArray → ℕ → ℕ
word_at code n = code (n / 64) / 2 ^ (n % 64)

abbrev after : IrisCodeArray → ℕ → Bits
after code n = record { code = code; current = word_at code n / 2; index = n + 1 }

same_word :
    (code : IrisCodeArray) {w w' b b' : ℕ} → w ≡ w' → b ≡ b' → code w / 2 ^ b ≡ code w' / 2 ^ b'
same_word code = ap₂ (λ w b. code w / 2 ^ b)

after-IsAt : (code : IrisCodeArray) (n : ℕ) → IsAt code (after code n) (n + 1)
after-IsAt code n = record {
  whole = refl;
  index = refl;
  current = λ h.
      div-div-eq-div-mul (code (n / 64)) (2 ^ (n % 64)) 2
      ∙ ap (λ d. code (n / 64) / d) (sym (pow-suc 2 (n % 64)))
      ∙ same_word code {w = n / 64} {w' = (n + 1) / 64} {b = suc (n % 64)} {b' = (n + 1) % 64}
          (omega arith) (omega arith);
}

-- The word that the iterator goes on with.
next_word :
    (code : IrisCodeArray) (it : Bits) (n : ℕ)
    → IsAt code it n
    → (if n % 64 == 0 then code (n / 64) else it.current) ≡ word_at code n
next_word code it n h =
    let first : n % 64 ≡ 0 → code (n / 64) ≡ word_at code n =
      λ e. omega (arith, same_word code {w = n / 64} {w' = n / 64} {b = n % 64} {b' = 0} refl e) in
    ground (arith, first, h.current)

next-IsAt :
    (code : IrisCodeArray) (it : Bits) (n : ℕ)
    → IsAt code it n
    → n < 12800
    → next it ≡ some (get_bit code n, after code n)
unfolding next get_bit
next-IsAt code it n h lt =
    let below : ltb n 12800 ≡ true = ground arith in
    rw (h.whole, h.index, below, next_word code it n h) refl

next-end : (code : IrisCodeArray) (it : Bits) → IsAt code it 12800 → next it ≡ none
unfolding next
next-end code it h = rw h.index refl

collect-IsAt :
    (code : IrisCodeArray) (k n : ℕ) (it : Bits)
    → IsAt code it n
    → n + k ≡ 12800
    → collect (suc k) it ≡ tabulate k (λ i. get_bit code (n + i))
unfolding tabulate collect
collect-IsAt code zero n it h e =
    let end : n ≡ 12800 = omega arith in rw (collect, next-end code it (rw (← end) h)) refl
collect-IsAt code (suc k) n it h e =
    rw (collect, next-IsAt code it n h (omega arith))
      (ap₂ ◌∷◌ (ap (get_bit code) {x = n} {y = n + 0} (omega arith)) (
        collect-IsAt code k (n + 1) (after code n) (after-IsAt code n) (omega arith)
        ∙ tabulate-agree k _ _
            λ i _. ap (get_bit code) {x = n + 1 + i} {y = n + suc i} (omega arith)))

-- The iterator gives the bits at the positions below 12,800 in order, and ends there.
pub collect-bits :
    (code : IrisCodeArray) → collect 12801 (bits code) ≡ tabulate 12800 (get_bit code)
unfolding bits
collect-bits code =
    collect-IsAt code 12800 0 (bits code)
      (record { whole = refl; index = refl; current = λ h. absurd (h refl) }) refl
    ∙ tabulate-agree 12800 (λ i. get_bit code (0 + i)) (get_bit code)
        (λ i _. ap (get_bit code) {x = 0 + i} {y = i} (omega arith))
