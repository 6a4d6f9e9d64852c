-- ===== src/Protocol/SignedLift/Correct.antt =====
-- `batch_signed_lift` extends the signs of the numbers from 16 to 32 bits.
use iris_mpc.Prelude.{
  ℕ, ◌+◌, ◌-◌, ◌^◌, ◌<◌, ◌≡◌, ◌∙◌, refl, ap, fun_ext, List, [], ◌∷◌, some, ltb, if◌then◌else◌, map,
  map-agree, map-tabulate, tabulate, AllPairs, nil, cons, arith,
}
use iris_mpc.Id.{PartyId, id0, id1, id2, to_usize, Trio, map_trio, columns}
use iris_mpc.Execution.Role.{Identity}
use iris_mpc.Execution.Session.{BootSession, own_role}
use iris_mpc.Shares.RingElement.{wrapping_add}
use iris_mpc.Shares.Share.{Share, add_assign_const, add_assign_const_role}
use iris_mpc.Shares.VecShare.{VecShare}
use iris_mpc.Shares.Sharing.{IsSharing}
use iris_mpc.Shares.Sharing.Linear.{add_assign_const-IsSharing, mod-lt-pow}
use iris_mpc.Protocol.Platform.{Platform}
use iris_mpc.Protocol.Program.{Session, Program, pure, ask}
use iris_mpc.Protocol.Run.{IsReady, Yields}
use iris_mpc.Protocol.Compose.{then, pure-Yields, then_made-Yields}
use iris_mpc.Protocol.Ops.Rep3.{AreShares}
use iris_mpc.Protocol.Extract.Correct.{vectors}
use iris_mpc.Protocol.Lift.Correct.{lifts, lift-Yields}
use iris_mpc.Protocol.SignedLift.{add_to_all, batch_signed_lift}

-- A number of 16 bits in two's complement, in 32 bits.
abbrev pub sign_extend : ℕ → ℕ
sign_extend x = if ltb x (2 ^ 15) then x else x + (2 ^ 32 - 2 ^ 16)

sign_extend_lem :
    (x : ℕ)
    → x < 2 ^ 16
    → wrapping_add 32 (wrapping_add 16 x (2 ^ 15)) (2 ^ 32 - 2 ^ 15) ≡ sign_extend x
unfolding wrapping_add
sign_extend_lem x h = ground arith

-- The constant, added by each party by its identifier.
abbrev plus_const : ℕ → ℕ → Trio Share → Trio Share
plus_const k c t = record {
  p0 = add_assign_const k t.p0 c id0;
  p1 = add_assign_const k t.p1 c id1;
  p2 = add_assign_const k t.p2 c id2;
}

by_role :
    (k : ℕ) (v : Share) (c : ℕ) (i : PartyId)
    → add_assign_const_role k v c (to_usize i) ≡ some (add_assign_const k v c i)
unfolding add_assign_const_role add_assign_const to_usize
by_role k v c id0 = refl
by_role k v c id1 = refl
by_role k v c id2 = refl

add_to_all-map :
    (k c : ℕ) (session : BootSession) (i : PartyId)
    → own_role session ≡ some (to_usize i)
    → (vs : VecShare) → add_to_all k c session vs ≡ some (map (λ v. add_assign_const k v c i) vs)
unfolding add_to_all
add_to_all-map k c session i e [] = refl
add_to_all-map k c session i e (v ∷ vs) =
    rw (e, by_role k v c i, add_to_all-map k c session i e vs) refl

-- What one party has after the loop.
module _ (k c : ℕ) (q : Trio Share → Share) (i : PartyId)
    (split : (t : Trio Share) → add_assign_const k (q t) c i ≡ q (plus_const k c t))
    (session : BootSession) (role : own_role session ≡ some (to_usize i)) where
  add_to_all-party :
      (ts : List (Trio Share))
      → add_to_all k c session (map q ts) ≡ some (map q (map (plus_const k c) ts))
  add_to_all-party ts =
      add_to_all-map k c session i role (map q ts)
      ∙ ap some (map-agree (λ v. add_assign_const k v c i) q q (plus_const k c) split ts)

  add_to_all-tabulate :
      (n : ℕ) (t : ℕ → Trio Share)
      → add_to_all k c session (tabulate n (λ j. q (t j)))
        ≡ some (tabulate n (λ j. q (plus_const k c (t j))))
  add_to_all-tabulate n t =
      add_to_all-map k c session i role (tabulate n (λ j. q (t j)))
      ∙ ap some (
          map-tabulate (λ v. add_assign_const k v c i) n (λ j. q (t j))
          ∙ ap (tabulate n) (fun_ext λ j. split (t j)))

plus_const-all :
    (k c : ℕ) {ts : List (Trio Share)} {xs : List ℕ}
    → AllPairs (IsSharing k) ts xs
    → AllPairs (IsSharing k) (map (plus_const k c) ts) (map (λ x. wrapping_add k x c) xs)
plus_const-all k c nil = nil
plus_const-all k c (cons p ps) = cons (add_assign_const-IsSharing k c p) (plus_const-all k c ps)

abbrev pub signed_lifts :
    {P : Platform} {R : Type 0} → ℕ → (ℕ → Trio Share) → Trio (Program P R VecShare)
signed_lifts k t =
    let v = vectors k t in
    record { p0 = batch_signed_lift v.p0; p1 = batch_signed_lift v.p1; p2 = batch_signed_lift v.p2 }

-- The lifted numbers, each with the difference of the constants.
extended :
    (k : ℕ) (x : ℕ → ℕ)
    → ((i : ℕ) → x i < 2 ^ 16)
    → map
        (λ y. wrapping_add 32 y (2 ^ 32 - 2 ^ 15))
        (tabulate k (λ i. wrapping_add 16 (x i) (2 ^ 15)))
      ≡ tabulate k (λ i. sign_extend (x i))
extended k x h =
    map-tabulate (λ y. wrapping_add 32 y (2 ^ 32 - 2 ^ 15)) k (λ i. wrapping_add 16 (x i) (2 ^ 15))
    ∙ ap (tabulate k) (fun_ext λ i. sign_extend_lem (x i) (h i))

module _ {P : Platform} (R : Type 0) (ids : Trio Identity) where
  abbrev unshift : VecShare → Program P R VecShare
  unshift lifted = ask (λ session. add_to_all 32 (2 ^ 32 - 2 ^ 15) session lifted)

  unshift-Yields :
      (s : Trio (Session P)) (ts : List (Trio Share)) (xs : List ℕ)
      → IsReady ids s
      → AllPairs (IsSharing 32) ts xs
      → Yields ids s
          (map_trio unshift (columns ts))
          (AreShares 32 (map (λ y. wrapping_add 32 y (2 ^ 32 - 2 ^ 15)) xs))
  unshift-Yields s ts xs h hts =
      let c = 2 ^ 32 - 2 ^ 15 in
      let us = map (plus_const 32 c) ts in
      let y : Yields {R = R} ids s
          (record {
            p0 = pure (columns us).p0;
            p1 = pure (columns us).p1;
            p2 = pure (columns us).p2;
          })
          (AreShares 32 (map (λ y. wrapping_add 32 y c) xs)) =
        pure-Yields ids (columns us) h (us, refl, plus_const-all 32 c hts) in
      record {
        value = y.value;
        after = y.after;
        ready = y.ready;
        good = y.good;
        runs = λ f.
            rw
              (
                add_to_all-party 32 c (λ t. t.p0) id0 (λ t. refl) s.p0.boot_session (h.role id0) ts,
                add_to_all-party 32 c (λ t. t.p1) id1 (λ t. refl) s.p1.boot_session (h.role id1) ts,
                add_to_all-party 32 c (λ t. t.p2) id2 (λ t. refl) s.p2.boot_session (h.role id2) ts,
              )
              (y.runs f);
      }

  -- Shares of 32 bits of the same numbers, with their signs.
  pub batch_signed_lift-Yields :
      (s : Trio (Session P)) (k : ℕ) (t : ℕ → Trio Share) (x : ℕ → ℕ)
      → IsReady ids s
      → ((i : ℕ) → IsSharing 16 (t i) (x i))
      → Yields {R = R} ids s (signed_lifts k t) (AreShares 32 (tabulate k (λ i. sign_extend (x i))))
  unfolding batch_signed_lift
  batch_signed_lift-Yields s k t x h hs =
      let c = 2 ^ 15 in
      let u : ℕ → Trio Share = λ i. plus_const 16 c (t i) in
      let z : ℕ → ℕ = λ i. wrapping_add 16 (x i) c in
      let f : Trio (VecShare → Program P R VecShare) = record {
        p0 = unshift;
        p1 = unshift;
        p2 = unshift;
      } in
      let y : Yields {R = R} ids s ((then) (lifts k u) f)
          (AreShares 32 (tabulate k (λ i. sign_extend (x i)))) =
        then_made-Yields ids columns (lifts k u) f
          (lift-Yields R ids s k u z h (λ i. add_assign_const-IsSharing 16 c (hs i)))
          λ ts s' h' hts.
            rw (extended k x (λ i. rw (← (hs i).value) (mod-lt-pow 16 _))) at
              (unshift-Yields s' ts (tabulate k z) h' hts) in
      record {
        value = y.value;
        after = y.after;
        ready = y.ready;
        good = y.good;
        runs = λ g.
            rw
              (
                add_to_all-tabulate 16 c (λ t. t.p0) id0 (λ t. refl) s.p0.boot_session (h.role id0)
                    k t,
                add_to_all-tabulate 16 c (λ t. t.p1) id1 (λ t. refl) s.p1.boot_session (h.role id1)
                    k t,
                add_to_all-tabulate 16 c (λ t. t.p2) id2 (λ t. refl) s.p2.boot_session (h.role id2)
                    k t,
              )
              (y.runs g);
      }
