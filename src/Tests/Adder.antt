-- ===== src/Tests/Adder.antt =====
-- The adders between three local sessions.
use iris_mpc.Prelude.{◌≡◌, refl, inr, none, some, List, [], ◌∷◌, nil, cons, tabulate}
use iris_mpc.Id.{Trio}
use iris_mpc.Network.Local.{here}
use iris_mpc.Network.Process.{done}
use iris_mpc.Protocol.Pack.Correct.{chunk_columns}
use iris_mpc.Protocol.Adder.{binary_add_3_get_msb}
use iris_mpc.Protocol.Adder.Errors.{binary_add_3_get_msb-done}
use iris_mpc.Shares.Share.{Share}
use iris_mpc.Shares.VecShare.{VecShare}
use iris_mpc.Protocol.Adder.Slices.{Words, Slice}
use iris_mpc.Protocol.Adder.Rows.{Rows}
use iris_mpc.Protocol.Adder.Summands.{Summands}
use iris_mpc.Protocol.Ends.{begin, EndsFrom}
use iris_mpc.Protocol.Ends.Adder.{
  AreTopBits, adders, positions, binary_add_3_get_msb_ends, AreTwoCarries, carry_adders,
  binary_add_3_get_two_carries_ends,
}
use iris_mpc.Tests.Setting.{
  toy, names, local, channels, channels-idle, local-IsReady, word_shares, word_shares-IsXorSharing,
}

abbrev twelve : Words
twelve i = 12

abbrev twelves : Trio Words
twelves = record { p0 = twelve; p1 = twelve; p2 = twelve }

-- Four rows of one word.
abbrev rows : List (List (Trio Share))
rows = (word_shares ∷ []) ∷ (word_shares ∷ []) ∷ (word_shares ∷ []) ∷ (word_shares ∷ []) ∷ []

row-Slice : Slice 1 (word_shares ∷ []) twelve
unfolding tabulate
row-Slice = record { pairs = cons word_shares-IsXorSharing nil }

rows-Rows : Rows 1 rows (twelve ∷ twelve ∷ twelve ∷ twelve ∷ [])
rows-Rows = cons row-Slice (cons row-Slice (cons row-Slice (cons row-Slice nil)))

rows-Summands : Summands 1 rows rows rows (positions twelves twelves [] twelves twelves)
rows-Summands = record { first = rows-Rows; second = rows-Rows; third = rows-Rows }

binary_add_3_get_msb_ends_example :
    EndsFrom {B = toy.Bytes} {A = VecShare} names
      (begin (adders rows rows rows) local channels)
      (AreTopBits 1 (positions twelves twelves [] twelves twelves) 3)
binary_add_3_get_msb_ends_example =
    binary_add_3_get_msb_ends names local channels 1 rows rows rows twelves twelves twelves twelves
      [] (begin (adders rows rows rows) local channels) local-IsReady rows-Summands channels-idle
      here

abbrev three_rows : List (List (Trio Share))
three_rows = (word_shares ∷ []) ∷ (word_shares ∷ []) ∷ (word_shares ∷ []) ∷ []

three_rows-Rows : Rows 1 three_rows (twelve ∷ twelve ∷ twelve ∷ [])
three_rows-Rows = cons row-Slice (cons row-Slice (cons row-Slice nil))

three_rows-Summands : Summands 1 three_rows three_rows three_rows (twelves ∷ twelves ∷ twelves ∷ [])
three_rows-Summands = record {
  first = three_rows-Rows;
  second = three_rows-Rows;
  third = three_rows-Rows;
}

binary_add_3_get_two_carries_ends_example :
    EndsFrom {B = toy.Bytes} {A = VecShare × VecShare} names
      (begin (carry_adders three_rows three_rows three_rows 20) local channels)
      (AreTwoCarries 1 20 (twelves ∷ twelves ∷ twelves ∷ []) 3)
binary_add_3_get_two_carries_ends_example =
    binary_add_3_get_two_carries_ends names local channels 1 20 three_rows three_rows three_rows
      twelves twelves twelves []
      (begin (carry_adders three_rows three_rows three_rows 20) local channels) local-IsReady
      three_rows-Summands channels-idle here

binary_add_3_get_msb-done_example :
    binary_add_3_get_msb {P = toy} {R = VecShare}
      (chunk_columns rows).p0
      (chunk_columns rows).p0
      []
      local.p0
      (λ v s. done (some v))
    ≡ done none
binary_add_3_get_msb-done_example =
    binary_add_3_get_msb-done (chunk_columns rows).p0 (chunk_columns rows).p0 [] local.p0
      (λ v s. done (some v)) (inr (inr refl))
