-- ===== src/Protocol/Adder/Ripple.antt =====
-- The parties' loops over the places compute the carry.
use iris_mpc.Prelude.{ℕ, ◌≡◌, ◌∙◌, refl, sym, List, ◌∷◌, map, AllPairs, nil, cons}
use iris_mpc.Id.{Trio, columns}
use iris_mpc.Execution.Role.{Identity}
use iris_mpc.Shares.Share.{Share}
use iris_mpc.Shares.VecShare.{VecShare, xor_assign}
use iris_mpc.Protocol.Platform.{Platform}
use iris_mpc.Protocol.Program.{Session, Program}
use iris_mpc.Protocol.Run.{IsReady, Yields}
use iris_mpc.Protocol.Compose.{pure-Yields, then_made-Yields}
use iris_mpc.Protocol.Adder.{ripple_carry}
use iris_mpc.Protocol.Adder.Circuit.{ripple}
use iris_mpc.Protocol.Adder.Slices.{
  Words, xor_words, and_words, Slice, Slice-length, AreSlices, xor_trios, xor-Slice,
  xor_assign-party, and_many-Slice,
}

-- Each party's loop, on its part of shared vectors.
abbrev pub ripples :
    {P : Platform} {R : Type 0}
    → List (Trio Share)
    → List (List (Trio Share))
    → List (List (Trio Share))
    → Trio (Program P R VecShare)
ripples c us vs = record {
  p0 = ripple_carry (map (λ t. t.p0) c) (map (map (λ t. t.p0)) us) (map (map (λ t. t.p0)) vs);
  p1 = ripple_carry (map (λ t. t.p1) c) (map (map (λ t. t.p1)) us) (map (map (λ t. t.p1)) vs);
  p2 = ripple_carry (map (λ t. t.p2) c) (map (map (λ t. t.p2)) us) (map (map (λ t. t.p2)) vs);
}

-- The three parties' exclusive ors in place.
pub xor_assign-columns :
    {n : ℕ} {us vs : List (Trio Share)} {f g : Words}
    → Slice n us f
    → Slice n vs g
    → let u = columns us in
      let v = columns vs in
      let w = columns (xor_trios us vs) in
      (xor_assign u.p0 v.p0 ≡ w.p0) × (xor_assign u.p1 v.p1 ≡ w.p1) × (xor_assign u.p2 v.p2 ≡ w.p2)
xor_assign-columns {us = us} {vs = vs} p q =
    let e = Slice-length p ∙ sym (Slice-length q) in
    (
      xor_assign-party (λ t. t.p0) (λ u v. refl) us vs e,
      xor_assign-party (λ t. t.p1) (λ u v. refl) us vs e,
      xor_assign-party (λ t. t.p2) (λ u v. refl) us vs e,
    )

module _ {P : Platform} (R : Type 0) (ids : Trio Identity) (n : ℕ) where
  pub ripple_carry-Yields :
      (s : Trio (Session P)) (c : List (Trio Share)) (f : Words) {us vs : List (List (Trio Share))}
      {fs gs : List Words}
      → IsReady ids s
      → Slice n c f
      → AllPairs (Slice n) us fs
      → AllPairs (Slice n) vs gs
      → Yields {R = R} ids s (ripples c us vs) (AreSlices n (ripple xor_words and_words f fs gs))
  unfolding ripple_carry ripple
  ripple_carry-Yields s c f h hc nil hv = pure-Yields ids (columns c) h (c, refl, hc)
  ripple_carry-Yields s c f h hc (cons ha hus) nil = pure-Yields ids (columns c) h (c, refl, hc)
  ripple_carry-Yields s c f {us = a ∷ us} {vs = b ∷ vs} h hc (cons {b = fa} ha hus)
        (cons {b = gb} hb hvs) =
      let (e0, e1, e2) = xor_assign-columns ha hc in
      let (d0, d1, d2) = xor_assign-columns hb hc in
      let next : Trio (VecShare → Program P R VecShare) = record {
        p0 = λ tmp s k.
            ripple_carry (xor_assign (columns c).p0 tmp) (map (map (λ t. t.p0)) us)
              (map (map (λ t. t.p0)) vs) s k;
        p1 = λ tmp s k.
            ripple_carry (xor_assign (columns c).p1 tmp) (map (map (λ t. t.p1)) us)
              (map (map (λ t. t.p1)) vs) s k;
        p2 = λ tmp s k.
            ripple_carry (xor_assign (columns c).p2 tmp) (map (map (λ t. t.p2)) us)
              (map (map (λ t. t.p2)) vs) s k;
      } in
      rw (e0, e1, e2, d0, d1, d2)
        (then_made-Yields ids columns _ next
          (and_many-Slice R ids s n (xor_trios a c) (xor_trios b c) (xor_words fa f)
            (xor_words gb f) h (xor-Slice ha hc) (xor-Slice hb hc))
          λ ts s' h' hts.
            let (g0, g1, g2) = xor_assign-columns hc hts in
            rw (g0, g1, g2)
              (ripple_carry-Yields s' (xor_trios c ts)
                (xor_words f (and_words (xor_words fa f) (xor_words gb f))) h' (xor-Slice hc hts)
                hus hvs))
