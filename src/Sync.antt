-- ===== src/Sync.antt =====
-- iris-mpc-common/src/helpers/sync.rs: how far the servers' databases are apart.
pub mod Rollback
use Prim.Native.String.{String}
use iris_mpc.Prelude.{
  ℕ, ◌&&◌, ◌==◌, ltb, Bool, true, false, List, [], ◌∷◌, map, Option, none, some, if◌then◌else◌,
}

pub record SyncState : Type 0 where
  pub db_len : ℕ
  pub deleted_request_ids : List String

pub record SyncResult : Type 0 where
  pub my_state : SyncState
  pub all_states : List SyncState

-- The smallest length; `none` for no states.
unfoldable pub smallest : List SyncState → Option ℕ
smallest [] = none
smallest (s ∷ states) = elim (smallest states) [
  | none ↦ some s.db_len
  | some n ↦ some (if ltb s.db_len n then s.db_len else n)
]

unfoldable pub all_equal : ℕ → List SyncState → Bool
all_equal n [] = true
all_equal n (s ∷ states) = s.db_len == n && all_equal n states

unfoldable pub must_rollback_storage : SyncResult → Option ℕ
unfolding smallest all_equal
must_rollback_storage r = elim (smallest r.all_states) [
  | none ↦ none
  | some n ↦ if all_equal n r.all_states then none else some n
]
