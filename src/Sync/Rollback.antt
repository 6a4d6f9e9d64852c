-- ===== src/Sync/Rollback.antt =====
-- When the servers roll their databases back, and to what length.
use mathlib.Core.List.{Memᴰ}
use mathlib.Core.List.Memᴰ.{head, tail}
use native.Mathlib.Decide.{dec_lt, ℕ_discrete}
use iris_mpc.Prelude.{
  ℕ, ◌≡◌, ◌≢◌, ltb, if◌then◌else◌, Option-cases, ◌≤◌, ◌<◌, refl, sym, ◌∙◌, List, [], ◌∷◌, none,
  some, true, false, ==_iff, arith, Bool-cases,
}
use iris_mpc.Sync.{SyncState, SyncResult, smallest, all_equal, must_rollback_storage}

-- A smallest length is a bound that some state reaches.
abbrev IsSmallest : List SyncState → ℕ → Type 0
IsSmallest l n =
    ((s : SyncState) → Memᴰ s l → n ≤ s.db_len) × ((s : SyncState) × Memᴰ s l × (s.db_len ≡ n))

smallest-none : (l : List SyncState) → smallest l ≡ none → (s : SyncState) → ¬ Memᴰ s l
unfolding smallest
smallest-none [] e s m = elim m [ ]
smallest-none (t ∷ l) e s m = ground (arith, Option-cases (smallest l))

only :
    (s : SyncState) (l : List SyncState) (n : ℕ)
    → ((t : SyncState) → ¬ Memᴰ t l)
    → n ≡ s.db_len
    → IsSmallest (s ∷ l) n
only s l n none_else e = (low, (s, head refl, sym e))
  where
    low : (t : SyncState) → Memᴰ t (s ∷ l) → n ≤ t.db_len
    low t (head same) = rw (same, e) (omega arith)
    low t (tail m) = absurd (none_else t m)

least :
    (s : SyncState) (l : List SyncState) (n k : ℕ)
    → IsSmallest l k
    → n ≡ (if ltb s.db_len k then s.db_len else k)
    → IsSmallest (s ∷ l) n
least s l n k (bound, (t, m, reached)) e = (low, attained)
  where
    low : (u : SyncState) → Memᴰ u (s ∷ l) → n ≤ u.db_len
    low u (head same) = rw same (ground arith)
    low u (tail w) = ground (arith, bound u w)

    attained : (u : SyncState) × Memᴰ u (s ∷ l) × (u.db_len ≡ n)
    attained = elim (dec_lt s.db_len k) [
      | yes below ↦ (s, head refl, ground arith)
      | no above ↦ (t, tail m, ground arith)
    ]

smallest-IsSmallest : (l : List SyncState) (n : ℕ) → smallest l ≡ some n → IsSmallest l n
unfolding smallest
smallest-IsSmallest [] n e = absurd (cc)
smallest-IsSmallest (s ∷ l) n e =
    elim (smallest l) as (λ r. smallest l ≡ r → IsSmallest (s ∷ l) n) [
      | none ↦ λ d. only s l n (smallest-none l d) (ground (arith, d))
      | some k ↦ λ d. least s l n k (smallest-IsSmallest l k d) (ground (arith, d))
    ]
      refl

all_equal-true :
    (n : ℕ) (l : List SyncState) → all_equal n l ≡ true → (s : SyncState) → Memᴰ s l → s.db_len ≡ n
unfolding all_equal
all_equal-true n [] e t m = elim m [ ]
all_equal-true n (s ∷ l) e t (head same) = rw same (ground (arith, ==_iff s.db_len n))
all_equal-true n (s ∷ l) e t (tail m) = all_equal-true n l (ground arith) t m

all_equal-false :
    (n : ℕ) (l : List SyncState)
    → all_equal n l ≡ false
    → (s : SyncState) × Memᴰ s l × (s.db_len ≢ n)
unfolding all_equal
all_equal-false n [] e = absurd (cc)
all_equal-false n (s ∷ l) e = elim (ℕ_discrete s.db_len n) [
  | yes same ↦
      let (t, m, differ) = all_equal-false n l (ground (arith, ==_iff s.db_len n)) in
      (t, tail m, differ)
  | no differ ↦ (s, head refl, differ)
]

-- A rollback to the length `n` is asked for only if `n` is the smallest length of the states, and
-- some state is longer.
pub must_rollback_storage-some :
    (r : SyncResult) (n : ℕ)
    → must_rollback_storage r ≡ some n
    → ((s : SyncState) → Memᴰ s r.all_states → n ≤ s.db_len)
      × ((s : SyncState) × Memᴰ s r.all_states × (s.db_len ≡ n))
      × ((s : SyncState) × Memᴰ s r.all_states × (n < s.db_len))
unfolding must_rollback_storage
must_rollback_storage-some r n e =
    elim (smallest r.all_states) as (λ o. smallest r.all_states ≡ o → Rollback) [
      | none ↦ λ d. absurd (ground (arith, d))
      | some k ↦ λ d.
          let (bound, reached) = smallest-IsSmallest r.all_states k d in
          let same : k ≡ n = ground (arith, d, Bool-cases (all_equal k r.all_states)) in
          let (u, w, differ) =
            all_equal-false k r.all_states
              (ground (arith, d, Bool-cases (all_equal k r.all_states))) in
          rw (← same) (bound, reached, (u, w, omega (arith, bound u w, differ)))
    ]
      refl
  where
    Rollback : Type 0
    Rollback =
        ((s : SyncState) → Memᴰ s r.all_states → n ≤ s.db_len)
        × ((s : SyncState) × Memᴰ s r.all_states × (s.db_len ≡ n))
        × ((s : SyncState) × Memᴰ s r.all_states × (n < s.db_len))

-- No rollback is asked for only if all states have one length.
pub must_rollback_storage-none :
    (r : SyncResult) (s t : SyncState)
    → must_rollback_storage r ≡ none
    → Memᴰ s r.all_states
    → Memᴰ t r.all_states
    → s.db_len ≡ t.db_len
unfolding must_rollback_storage
must_rollback_storage-none r s t e m w =
    elim (smallest r.all_states) as (λ o. smallest r.all_states ≡ o → s.db_len ≡ t.db_len) [
      | none ↦ λ d. absurd (smallest-none r.all_states d s m)
      | some k ↦ λ d.
          let same : all_equal k r.all_states ≡ true =
            ground (arith, d, Bool-cases (all_equal k r.all_states)) in
          all_equal-true k r.all_states same s m ∙ sym (all_equal-true k r.all_states same t w)
    ]
      refl
