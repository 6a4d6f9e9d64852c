-- ===== src/Protocol/Extract/Single.antt =====
-- `single_extract_msb_u32` gives shares of the most significant bit of one number.
use iris_mpc.Prelude.{ℕ, ◌≡◌, ◌∙◌, refl, ap, List, [], ◌∷◌, tabulate, AllPairs, nil, cons, arith}
use iris_mpc.Prelude.Bits.{bit_at, to_nat}
use iris_mpc.Id.{Trio, map_trio, columns}
use iris_mpc.Execution.Role.{Identity}
use iris_mpc.Shares.RingElement.{get_bit_as_bit}
use iris_mpc.Shares.Share.{Share, new}
use iris_mpc.Shares.VecShare.{VecShare, get_at}
use iris_mpc.Shares.Sharing.{IsSharing, IsXorSharing}
use iris_mpc.Shares.Sharing.Bits.{bit_share, bit_share-IsXorSharing, get_bit_as_bit-bit_at}
use iris_mpc.Shares.TransposePack.Packer.{u32_packer}
use iris_mpc.Protocol.Platform.{Platform}
use iris_mpc.Protocol.Program.{Session, Program, ◌>>=◌, pure, try}
use iris_mpc.Protocol.Run.{IsReady, Yields}
use iris_mpc.Protocol.Compose.{pure-Yields, then_made-Yields}
use iris_mpc.Protocol.Adder.Slices.{Words, Slice}
use iris_mpc.Protocol.Extract.{extract_msb_u32, single_extract_msb_u32}
use iris_mpc.Protocol.Extract.Rows.{components}
use iris_mpc.Protocol.Extract.Bits.{total-bit}
use iris_mpc.Protocol.Extract.Correct.{extractions, extract_msb_u32-Yields}
use iris_mpc.Protocol.Extract.Top.{top-bit}

-- A vector of sharings of one word.
pub only :
    {Q : Trio Share → ℕ → Type 0} {ts : List (Trio Share)} {y : ℕ}
    → AllPairs Q ts (y ∷ [])
    → (u : Trio Share) × (ts ≡ u ∷ []) × Q u y
only (cons {a = u} q nil) = (u, refl, q)

module _ {P : Platform} (R : Type 0) (ids : Trio Identity) where
  abbrev lowest : VecShare → Program P R Share
  lowest v = do s ← try (get_at v 0); pure (new (get_bit_as_bit s.a 0) (get_bit_as_bit s.b 0))

  lowest-Yields :
      (s : Trio (Session P)) (ts : List (Trio Share)) (w : Words) (y : ℕ)
      → IsReady ids s
      → Slice 1 ts w
      → get_bit_as_bit (w 0) 0 ≡ y
      → Yields ids s (map_trio lowest (columns ts)) (λ v. IsXorSharing 1 v y)
  unfolding get_at tabulate
  lowest-Yields s ts w y h hts e =
      let (u, made, q) = only hts.pairs in
      rw (made)
        (pure-Yields ids (map_trio (bit_share 0) u) h (rw (e) at (bit_share-IsXorSharing 64 0 q)))

  one_vector :
      (t : Share)
      → extract_msb_u32 {P = P} {R = R} 32 (tabulate 1 (λ _. t)) ≡ extract_msb_u32 32 (t ∷ [])
  unfolding tabulate
  one_vector t = refl

  pub single_extract_msb_u32-Yields :
      (s : Trio (Session P)) (t : Trio Share) (x : ℕ)
      → IsReady ids s
      → IsSharing 32 t x
      → Yields {R = R} ids s
          (map_trio single_extract_msb_u32 t)
          (λ v. IsXorSharing 1 v (to_nat (bit_at x 31)))
  unfolding single_extract_msb_u32
  single_extract_msb_u32-Yields s t x h hs =
      let f : Trio (VecShare → Program P R Share) = record {
        p0 = lowest;
        p1 = lowest;
        p2 = lowest;
      } in
      let c = components u32_packer 1 (λ _. t) (λ _. x) (λ _. hs) in
      rw (← one_vector t.p0, ← one_vector t.p1, ← one_vector t.p2)
        (then_made-Yields ids columns (extractions 1 (λ _. t)) f
          (extract_msb_u32-Yields R ids s 1 (λ _. t) (λ _. x) h (λ _. hs))
          λ ts s' h' hts. lowest-Yields s' ts _ (to_nat (bit_at x 31)) h' hts (
            get_bit_as_bit-bit_at _ 0
            ∙ ap to_nat (
                top-bit 0 0 c
                ∙ total-bit 1 (λ _. t) (λ _. x) (λ _. hs) 0 0 (omega arith) (omega arith)
                    (omega arith))))
