-- ===== src/Tests/Sync.antt =====
-- Databases of different and of equal lengths.
use mathlib.Core.List.{Memᴰ}
use mathlib.Core.List.Memᴰ.{head, tail}
use iris_mpc.Prelude.{◌≡◌, ◌≤◌, ◌<◌, refl, [], ◌∷◌, none, some}
use iris_mpc.Sync.{SyncState, SyncResult, smallest, all_equal, must_rollback_storage}
use iris_mpc.Sync.Rollback.{must_rollback_storage-some, must_rollback_storage-none}

abbrev short : SyncState
short = record { db_len = 123; deleted_request_ids = [] }

abbrev long : SyncState
long = record { db_len = 456; deleted_request_ids = [] }

abbrev apart : SyncResult
apart = record { my_state = long; all_states = long ∷ short ∷ long ∷ [] }

abbrev together : SyncResult
together = record { my_state = long; all_states = long ∷ long ∷ [] }

apart_rolls_back : must_rollback_storage apart ≡ some 123
unfolding must_rollback_storage smallest all_equal
apart_rolls_back = refl

together_stays : must_rollback_storage together ≡ none
unfolding must_rollback_storage smallest all_equal
together_stays = refl

must_rollback_storage-some_example :
    ((s : SyncState) → Memᴰ s apart.all_states → 123 ≤ s.db_len)
    × ((s : SyncState) × Memᴰ s apart.all_states × (s.db_len ≡ 123))
    × ((s : SyncState) × Memᴰ s apart.all_states × (123 < s.db_len))
must_rollback_storage-some_example = must_rollback_storage-some apart 123 apart_rolls_back

must_rollback_storage-none_example : long.db_len ≡ long.db_len
must_rollback_storage-none_example =
    must_rollback_storage-none together long long together_stays (head refl) (tail (head refl))
