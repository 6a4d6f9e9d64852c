-- ===== src/Execution/Role.antt =====
-- iris-mpc-cpu/src/execution/player.rs: zero-indexed roles, and the identities they are assigned to.
use Prim.Native.String.{String}
use native.Mathlib.Decide.{dec_lt}
use native.Mathlib.Nat.{mod-eq_of_lt, mod_self}
use iris_mpc.Prelude.{
  ◌⊎◌, inl, inr, ℕ, zero, suc, ◌+◌, ◌-◌, ◌%◌, ◌≡◌, ◌<◌, ◌≤◌, List, ◌==◌, if◌then◌else◌, arith,
}

abbrev pub Identity : Type 0
Identity = String

-- The `u8` behind a role.
abbrev pub Role : Type 0
Role = ℕ

-- `x as u8`
unfoldable pub new : ℕ → Role
new x = x % 256

unfoldable pub index : Role → ℕ
index r = r

-- `self.0 + 1` is a sum of type `u8`; the roles that occur are far below its limit.
unfoldable pub next : Role → ℕ → Role
next r num_players = (r + 1) % num_players

unfoldable pub prev : Role → ℕ → Role
unfolding new
prev r num_players = if r == 0 then new (num_players - 1) else r - 1

abbrev pub RoleAssignment : Type 0
RoleAssignment = List (Role × Identity)

-- One more, around a circle of `n`.
wrap : (n r : ℕ) → r < n → ((r + 1 ≡ n) × ((r + 1) % n ≡ 0)) ⊎ ((r + 1 < n) × ((r + 1) % n ≡ r + 1))
wrap n r h = elim (dec_lt (r + 1) n) [
  | yes below ↦ inr (below, mod-eq_of_lt below)
  | no top ↦ let e : r + 1 ≡ n = omega arith in inl (e, rw e (mod_self n))
]

-- With at most 256 players, the previous and the next role of a player are roles of players, and
-- each of the two steps undoes the other.
next-prev :
    (n r : ℕ)
    → r < n
    → n ≤ 256
    → (next r n < n) × (prev r n < n) × (next (prev r n) n ≡ r) × (prev (next r n) n ≡ r)
unfolding next prev
next-prev n zero h k = (
  ground (arith, wrap n 0 h),
  omega arith,
  ground (arith, wrap n ((n - 1) % 256)),
  ground (arith, wrap n 0 h),
)
next-prev n (suc r) h k = (
  ground (arith, wrap n (suc r) h),
  ground arith,
  ground (arith, wrap n r),
  ground (arith, wrap n (suc r) h),
)
