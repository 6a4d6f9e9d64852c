-- ===== src/Tests/Network.antt =====
-- Two parties on the local network, in two orders.
use mathlib.Core.List.{Memᴰ}
use iris_mpc.Prelude.{ℕ, [], ◌∷◌, ◌≡◌, ◌≢◌, ◌↔◌, List, refl, none, some, inl, arith}
use iris_mpc.Id.{id0, id1, id2}
use iris_mpc.Execution.Role.{Identity}
use iris_mpc.Network.Process.{Process, done, send}
use iris_mpc.Network.Local.{Config, Reach, here, step, moves, act, from_host_ids}
use iris_mpc.Network.Local.Queues.{Channels, update, update-other}
use iris_mpc.Network.Local.Confluence.{IsFinal, Reach-confluent}
use iris_mpc.Network.Local.Hosts.{from_host_ids_lem}
use iris_mpc.Protocol.Local.{generate_local_identities-Distinct}
use iris_mpc.Tests.Setting.{names}

abbrev empty : Channels ℕ
empty = λ sender receiver. some []

-- The first party sends 5 to the second one, and the second one 6 to the third one.
abbrev first : Process ℕ ℕ
first = send names.p1 5 (λ sent. done (some 1))

abbrev second : Process ℕ ℕ
second = send names.p2 6 (λ sent. done (some 2))

abbrev third : Process ℕ ℕ
third = done none

abbrev with_five : Channels ℕ
with_five = update empty names.p0 names.p1 (5 ∷ [])

abbrev with_six : Channels ℕ
with_six = update empty names.p1 names.p2 (6 ∷ [])

abbrev with_both : Channels ℕ
with_both = update with_five names.p1 names.p2 (6 ∷ [])

abbrev both_sent : Config ℕ ℕ
both_sent = record {
  parties = record { p0 = done (some 1); p1 = done (some 2); p2 = third };
  channels = with_both;
}

abbrev second_sent : Config ℕ ℕ
second_sent = record {
  parties = record { p0 = first; p1 = done (some 2); p2 = third };
  channels = with_six;
}

abbrev none_sent : Config ℕ ℕ
none_sent = record { parties = record { p0 = first; p1 = second; p2 = third }; channels = empty }

room : with_five names.p1 names.p2 ≡ some []
room =
    update-other empty names.p0 names.p1 (5 ∷ []) names.p1 names.p2
      (inl (generate_local_identities-Distinct id0 id1 (ground arith)))

in_order : Reach names none_sent both_sent
unfolding act
in_order =
    step (moves id0 (done (some 1)) with_five refl)
      (step (moves id1 (done (some 2)) with_both (rw (act, room))) here)

second_first : Reach names none_sent second_sent
unfolding act
second_first = step (moves id1 (done (some 2)) with_six refl) here

both_sent-IsFinal : IsFinal both_sent
both_sent-IsFinal = elim [ id0 ↦ (some 1, refl) | id1 ↦ (some 2, refl) | id2 ↦ (none, refl) ]

Reach-confluent_example : Reach names second_sent both_sent
Reach-confluent_example =
    Reach-confluent names generate_local_identities-Distinct in_order both_sent-IsFinal second_first

-- A list that names one host twice.
abbrev repeated : List Identity
repeated = names.p0 ∷ names.p1 ∷ names.p0 ∷ []

from_host_ids_lem_example : (from_host_ids {B = ℕ} repeated names.p0 names.p1 ≡ some []) ↔ (
    Memᴰ names.p0 repeated
    × Memᴰ names.p1 repeated
    × (names.p0 ≢ names.p1)
    × (◌≡◌ {A = List ℕ} [] []))
from_host_ids_lem_example = from_host_ids_lem repeated names.p0 names.p1 []
