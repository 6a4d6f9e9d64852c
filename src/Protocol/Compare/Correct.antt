-- ===== src/Protocol/Compare/Correct.antt =====
-- The comparisons give every party the sign of a difference.
use iris_mpc.Prelude.{ℕ, ◌≡◌, refl, Bool, true, false}
use iris_mpc.Prelude.Bits.{bit_at, to_nat}
use iris_mpc.Id.{Trio, map_trio}
use iris_mpc.Execution.Role.{Identity}
use iris_mpc.Shares.Bit.{convert}
use iris_mpc.Shares.RingElement.{wrapping_sub, wrapping_mul}
use iris_mpc.Shares.Share.{Share}
use iris_mpc.Shares.Sharing.{IsSharing, IsXorSharing}
use iris_mpc.Shares.Sharing.Linear.{sub-IsSharing, mul-IsSharing}
use iris_mpc.Protocol.Platform.{Platform}
use iris_mpc.Protocol.Program.{Session, Program, ◌>>=◌, pure}
use iris_mpc.Protocol.Run.{IsReady, Yields}
use iris_mpc.Protocol.Compose.{pure-Yields, then-Yields}
use iris_mpc.Protocol.Open.{open_bin}
use iris_mpc.Protocol.Open.Correct.{open_bin-Runs}
use iris_mpc.Protocol.Ops.{cross_mul}
use iris_mpc.Protocol.Ops.CrossMul.{cross_mul-Yields}
use iris_mpc.Protocol.Extract.{single_extract_msb_u32}
use iris_mpc.Protocol.Extract.Single.{single_extract_msb_u32-Yields}
use iris_mpc.Protocol.Compare.{
  bound_a, bound_b, compare_threshold, compare_threshold_and_open, cross_compare,
}

-- Every party has the same answer.
abbrev pub AllAre : Bool → Trio Bool → Type 0
AllAre b v = v ≡ record { p0 = b; p1 = b; p2 = b }

-- The sign of `t * a - c * b` in 32 bits.
abbrev pub below_zero : ℕ → ℕ → ℕ → ℕ → Bool
below_zero t a c b = bit_at (wrapping_sub 32 (wrapping_mul 32 t a) (wrapping_mul 32 c b)) 31

convert-to_nat : (b : Bool) → convert (to_nat b) ≡ b
unfolding convert
convert-to_nat true = refl
convert-to_nat false = refl

module _ {P : Platform} (R : Type 0) (ids : Trio Identity) where
  abbrev pub revealed : Share → Program P R Bool
  revealed bit = do opened ← open_bin bit; pure (convert opened)

  pub revealed-Yields :
      (s : Trio (Session P)) (t : Trio Share) (b : Bool)
      → IsReady ids s
      → IsXorSharing 1 t (to_nat b)
      → Yields ids s (map_trio revealed t) (AllAre b)
  revealed-Yields s t b h ht =
      let x = to_nat b in
      let opening : Yields {P = P} {R = R} ids s (map_trio open_bin t)
          (λ v. v ≡ record { p0 = x; p1 = x; p2 = x }) =
        record {
          value = _;
          after = s;
          ready = h;
          good = refl;
          runs = open_bin-Runs ids s t x h.parties ht;
        } in
      let f : Trio (ℕ → Program P R Bool) = record {
        p0 = λ c. pure (convert c);
        p1 = λ c. pure (convert c);
        p2 = λ c. pure (convert c);
      } in
      then-Yields ids (map_trio open_bin t) f opening
        λ c s' h' e. pure-Yields ids (map_trio convert c) h' (rw (e, convert-to_nat b) refl)

  abbrev sign_revealed : Share → Program P R Bool
  sign_revealed diff = do
    bit ← single_extract_msb_u32 diff
    opened ← open_bin bit
    pure (convert opened)

  sign_revealed-Yields :
      (s : Trio (Session P)) (t : Trio Share) (x : ℕ)
      → IsReady ids s
      → IsSharing 32 t x
      → Yields ids s (map_trio sign_revealed t) (AllAre (bit_at x 31))
  sign_revealed-Yields s t x h ht =
      then-Yields ids (map_trio single_extract_msb_u32 t)
        (record { p0 = revealed; p1 = revealed; p2 = revealed })
        (single_extract_msb_u32-Yields R ids s t x h ht)
        λ bit s' h' hbit. revealed-Yields s' bit (bit_at x 31) h' hbit

  pub cross_compare-Yields :
      (s : Trio (Session P)) (sd1 st1 sd2 st2 : Trio Share) (d1 t1 d2 t2 : ℕ)
      → IsReady ids s
      → IsSharing 32 sd1 d1
      → IsSharing 32 st1 t1
      → IsSharing 32 sd2 d2
      → IsSharing 32 st2 t2
      → Yields {R = R} ids s
          (record {
            p0 = cross_compare sd1.p0 st1.p0 sd2.p0 st2.p0;
            p1 = cross_compare sd1.p1 st1.p1 sd2.p1 st2.p1;
            p2 = cross_compare sd1.p2 st1.p2 sd2.p2 st2.p2;
          })
          (AllAre (below_zero d2 t1 t2 d1))
  unfolding cross_compare
  cross_compare-Yields s sd1 st1 sd2 st2 d1 t1 d2 t2 h h1 h2 h3 h4 =
      then-Yields ids
        (record {
          p0 = cross_mul sd1.p0 st1.p0 sd2.p0 st2.p0;
          p1 = cross_mul sd1.p1 st1.p1 sd2.p1 st2.p1;
          p2 = cross_mul sd1.p2 st1.p2 sd2.p2 st2.p2;
        })
        (record { p0 = sign_revealed; p1 = sign_revealed; p2 = sign_revealed })
        (cross_mul-Yields R ids s sd1 st1 sd2 st2 h h1 h2 h3 h4)
        λ diff s' h' hdiff. sign_revealed-Yields s' diff _ h' hdiff

  pub compare_threshold_and_open-Yields :
      (s : Trio (Session P)) (code mask : Trio Share) (c m : ℕ)
      → IsReady ids s
      → IsSharing 32 code c
      → IsSharing 32 mask m
      → Yields {R = R} ids s
          (record {
            p0 = compare_threshold_and_open (record { code_dot = code.p0; mask_dot = mask.p0 });
            p1 = compare_threshold_and_open (record { code_dot = code.p1; mask_dot = mask.p1 });
            p2 = compare_threshold_and_open (record { code_dot = code.p2; mask_dot = mask.p2 });
          })
          (AllAre (below_zero m bound_a c bound_b))
  unfolding compare_threshold_and_open compare_threshold
  compare_threshold_and_open-Yields s code mask c m h hc hm =
      sign_revealed-Yields s _ _ h
        (sub-IsSharing 32 (mul-IsSharing 32 bound_a hm) (mul-IsSharing 32 bound_b hc))
