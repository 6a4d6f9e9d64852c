-- ===== src/Protocol/Lift/Subtract.antt =====
-- The end of `lift`: both vectors of carries become numbers, and are subtracted.
use iris_mpc.Prelude.{
  ℕ, ◌≡◌, ◌∙◌, refl, sym, ap, fun_ext, List, ◌++◌, map, map-append, take-append, drop-append,
  length, length-map, length-tabulate, tabulate, map-tabulate, AllPairs, AllPairs-length,
  AllPairs-split, append-AllPairs, length-append, ltb, false, some, arith,
}
use iris_mpc.Prelude.Bits.{bit_at, to_nat}
use iris_mpc.Id.{Trio, map_trio, columns}
use iris_mpc.Execution.Role.{Identity}
use iris_mpc.Shares.Share
use iris_mpc.Shares.Share.{Share}
use iris_mpc.Shares.VecShare.{VecShare, split_at, sub_assign}
use iris_mpc.Shares.Sharing.{IsSharing, IsXorSharing}
use iris_mpc.Protocol.Platform.{Platform}
use iris_mpc.Protocol.Program.{Session, Program, ◌>>=◌, try, pure}
use iris_mpc.Protocol.Run.{IsReady, Yields}
use iris_mpc.Protocol.Compose.{pure-Yields, then_made-Yields}
use iris_mpc.Protocol.Convert.{mul_lift_2k, mul_lift_2k_many}
use iris_mpc.Protocol.Adder.Carries.{pair_columns}
use iris_mpc.Protocol.Extract.Correct.{vectors}
use iris_mpc.Protocol.Inject.{bit_inject_ot_2round}
use iris_mpc.Protocol.Inject.Correct.{bit_inject_ot_2round-Yields}
use iris_mpc.Protocol.Ops.Rep3.{AreShares}
use iris_mpc.Protocol.Lift.{widen}
use iris_mpc.Protocol.Lift.Trios.{
  component_sum, lift_trio, lift_trios, lift_trios-party, lift_trios-IsSharing,
}

-- The two carries of the sum of the components.
abbrev pub low_bit : Trio Share → ℕ
low_bit t = to_nat (bit_at (component_sum t) 16)

abbrev pub high_bit : Trio Share → ℕ
high_bit t = to_nat (bit_at (component_sum t) 17)

split_at-append :
    (q : Trio Share → Share) (us vs : List (Trio Share)) (n : ℕ)
    → length us ≡ n
    → split_at (map q (us ++ vs)) n ≡ some (map q us, map q vs)
unfolding split_at
split_at-append q us vs n e =
    let within : ltb (length (map q (us ++ vs))) n ≡ false =
      ground (arith, length-map q (us ++ vs), length-append us vs, e) in
    rw
      (
        within,
        map-append q us vs,
        ← e,
        ← length-map q us,
        take-append (map q us) (map q vs),
        drop-append (map q us) (map q vs),
      )
      refl

module _ {P : Platform} (R : Type 0) (ids : Trio Identity) where
  -- What a party does with the shares of both carries.
  abbrev subtract_bits : ℕ → VecShare → VecShare → Program P R VecShare
  subtract_bits len x b = do
    (b1, b2) ← try (split_at b len)
    pure (
        sub_assign 32 (sub_assign 32 (map widen x) (mul_lift_2k_many 16 b1))
          (mul_lift_2k_many 17 b2))

  abbrev pub inject_both : ℕ → VecShare → VecShare × VecShare → Program P R VecShare
  inject_both len x bits s k =
      let (b1, b2) = bits in bit_inject_ot_2round (b1 ++ b2) s (λ b s'. subtract_bits len x b s' k)

  subtract_bits-party :
      (k : ℕ) (t : ℕ → Trio Share) (us vs : List (Trio Share)) (q : Trio Share → Share)
      (split : (t u v : Trio Share)
        → Share.sub 32 (Share.sub 32 (widen (q t)) (mul_lift_2k 16 (q u))) (mul_lift_2k 17 (q v))
          ≡ q (lift_trio t u v))
      → length us ≡ k
      → length vs ≡ k
      → subtract_bits k (tabulate k (λ i. q (t i))) (map q (us ++ vs))
        ≡ pure (map q (lift_trios (tabulate k t) us vs))
  subtract_bits-party k t us vs q split hu hv =
      let ht = length-tabulate k t in
      rw (← map-tabulate q k t, split_at-append q us vs k hu)
        (ap pure (lift_trios-party q split (tabulate k t) us vs (hu ∙ sym ht) (hv ∙ sym ht)))

  inject_both-party :
      (len : ℕ) (x : VecShare) (us vs : List (Trio Share)) (q : Trio Share → Share)
      → inject_both len x (map q us, map q vs)
        ≡ (λ s k. bit_inject_ot_2round (map q (us ++ vs)) s (λ b s'. subtract_bits len x b s' k))
  inject_both-party len x us vs q = fun_ext λ s. fun_ext λ k. rw (map-append q us vs) refl

  module _ (k : ℕ) (t : ℕ → Trio Share) (x : ℕ → ℕ) (hs : (i : ℕ) → IsSharing 16 (t i) (x i)) where
    subtract_bits-Yields :
        (s : Trio (Session P)) (us vs : List (Trio Share))
        → IsReady ids s
        → AllPairs (IsSharing 16) us (tabulate k (λ i. low_bit (t i)))
        → AllPairs (IsSharing 16) vs (tabulate k (λ i. high_bit (t i)))
        → let v = vectors k t in
          let b = columns (us ++ vs) in
          Yields {R = R} ids s
            (record {
              p0 = subtract_bits k v.p0 b.p0;
              p1 = subtract_bits k v.p1 b.p1;
              p2 = subtract_bits k v.p2 b.p2;
            })
            (AreShares 32 (tabulate k x))
    unfolding widen mul_lift_2k Share.sub
    subtract_bits-Yields s us vs h hus hvs =
        let ts = tabulate k t in
        let lu = AllPairs-length hus ∙ length-tabulate k (λ i. low_bit (t i)) in
        let lv = AllPairs-length hvs ∙ length-tabulate k (λ i. high_bit (t i)) in
        rw
          (
            subtract_bits-party k t us vs (λ t. t.p0) (λ t u v. refl) lu lv,
            subtract_bits-party k t us vs (λ t. t.p1) (λ t u v. refl) lu lv,
            subtract_bits-party k t us vs (λ t. t.p2) (λ t u v. refl) lu lv,
          )
          (pure-Yields ids (columns (lift_trios ts us vs)) h
            (lift_trios ts us vs, refl, lift_trios-IsSharing k t x us vs hs hus hvs))

    pub inject_both-Yields :
        (s : Trio (Session P)) (us vs : List (Trio Share))
        → IsReady ids s
        → AllPairs (IsXorSharing 1) us (tabulate k (λ i. low_bit (t i)))
        → AllPairs (IsXorSharing 1) vs (tabulate k (λ i. high_bit (t i)))
        → let v = vectors k t in
          let b = pair_columns us vs in
          Yields {R = R} ids s
            (record {
              p0 = inject_both k v.p0 b.p0;
              p1 = inject_both k v.p1 b.p1;
              p2 = inject_both k v.p2 b.p2;
            })
            (AreShares 32 (tabulate k x))
    inject_both-Yields s us vs h hus hvs =
        let v = vectors k t in
        let rest : Trio (VecShare → Program P R VecShare) = record {
          p0 = subtract_bits k v.p0;
          p1 = subtract_bits k v.p1;
          p2 = subtract_bits k v.p2;
        } in
        rw
          (
            inject_both-party k v.p0 us vs (λ t. t.p0),
            inject_both-party k v.p1 us vs (λ t. t.p1),
            inject_both-party k v.p2 us vs (λ t. t.p2),
          )
          (then_made-Yields ids columns (map_trio bit_inject_ot_2round (columns (us ++ vs))) rest
            (bit_inject_ot_2round-Yields R ids s (us ++ vs) _ h (append-AllPairs hus hvs))
            λ bs s' h' hbs.
              let (ls, rs, e, hl, hr) = AllPairs-split (tabulate k (λ i. low_bit (t i))) hbs in
              rw e (subtract_bits-Yields s' ls rs h' hl hr))
