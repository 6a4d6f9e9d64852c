-- ===== src/Protocol/Ends/Extract.antt =====
-- Whole runs of the extraction of most significant bits.
use iris_mpc.Prelude.{ℕ, ◌+◌, ◌*◌, ◌/◌, ◌%◌, ◌<◌, ◌≡◌, ◌∙◌, ap, arith}
use iris_mpc.Prelude.Bits.{bit_at}
use iris_mpc.Id.{Trio}
use iris_mpc.Execution.Role.{Identity}
use iris_mpc.Network.Local.{Config, Reach}
use iris_mpc.Network.Local.Queues.{Channels}
use iris_mpc.Network.Local.Leads.{Holds, idle}
use iris_mpc.Shares.Share.{Share}
use iris_mpc.Shares.VecShare.{VecShare}
use iris_mpc.Shares.Sharing.{IsSharing}
use iris_mpc.Shares.TransposePack.Correct.{chunk_count}
use iris_mpc.Shares.TransposePack.Packer.{u32_packer}
use iris_mpc.Protocol.Platform.{Platform}
use iris_mpc.Protocol.Program.{Session}
use iris_mpc.Protocol.Run.{IsReady}
use iris_mpc.Protocol.Adder.Slices.{Words, AreSlices}
use iris_mpc.Protocol.Extract.Rows.{components}
use iris_mpc.Protocol.Extract.Top.{top-bit}
use iris_mpc.Protocol.Extract.Bits.{total-bit}
use iris_mpc.Protocol.Extract.Correct.{extractions, extract_msb_u32-Yields}
use iris_mpc.Protocol.Ends.{begin, EndsFrom, runs_end}

-- The parties' vectors are binary shares of words whose bit `i`, from the first word on, is the
-- highest of the 32 bits of `x i`, for the first `k` numbers.
abbrev pub AreMsbs : ℕ → (ℕ → ℕ) → Trio VecShare → Type 0
AreMsbs k x v =
    (w : Words) × AreSlices (chunk_count 64 k) w v
    × ((i : ℕ) → i < k → bit_at (w (i / 64)) (i % 64) ≡ bit_at (x i) 31)

module _ {P : Platform} (ids : Trio Identity) (s : Trio (Session P)) (n : Channels P.Bytes) where
  -- Three ready parties with shares `t` of numbers `x` of 32 bits run `extract_msb_u32` on the first
  -- `k` of them, for 32 rows, from idle channels. Wherever an order of their steps has taken them,
  -- they can go on until their results are binary shares of words of 64 bits, one for every 64
  -- numbers, in which bit `i`, from the first word on, is the most significant bit of the number
  -- `i`, and no message is left over.
  pub extract_msb_u32_ends :
      (k : ℕ) (t : ℕ → Trio Share) (x : ℕ → ℕ) (e : Config P.Bytes VecShare)
      → IsReady ids s
      → ((i : ℕ) → IsSharing 32 (t i) (x i))
      → Holds ids n idle
      → Reach ids (begin (extractions k t) s n) e
      → EndsFrom ids e (AreMsbs k x)
  extract_msb_u32_ends k t x e h hs quiet =
      let y = extract_msb_u32-Yields VecShare ids s k t x h hs in
      let c = components u32_packer k t x hs in
      runs_end ids s y.after (extractions k t) y.value n _ h.apart y.runs
        (
          _,
          y.good,
          λ i hi.
              let whole : 64 * (i / 64) + i % 64 ≡ i = omega arith in
              top-bit (i / 64) (i % 64) c
              ∙ total-bit k t x hs (i / 64) (i % 64) (omega arith) (omega arith) (omega arith)
              ∙ ap (λ i. bit_at (x i) 31) whole,
        )
        quiet
