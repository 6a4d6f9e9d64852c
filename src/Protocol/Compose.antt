-- ===== src/Protocol/Compose.antt =====
-- Runs of three parties, put together from the runs of their programs' parts.
use iris_mpc.Prelude.{◌≡◌, refl}
use iris_mpc.Id.{Trio}
use iris_mpc.Execution.Role.{Identity}
use iris_mpc.Network.Local.Leads.{lead_end}
use iris_mpc.Protocol.Platform.{Platform}
use iris_mpc.Protocol.Program.{Session, Program, pure}
use iris_mpc.Protocol.Run.{IsReady, Yields, run_bind}

-- Each party's program for its value.
abbrev pub each :
    {P : Platform} {R A B : Type 0} → Trio (A → Program P R B) → Trio A → Trio (Program P R B)
each f a = record { p0 = f.p0 a.p0; p1 = f.p1 a.p1; p2 = f.p2 a.p2 }

-- Each party's program, and then the one for its value.
abbrev pub then :
    {P : Platform} {R A B : Type 0}
    → Trio (Program P R A)
    → Trio (A → Program P R B)
    → Trio (Program P R B)
then m f = record {
  p0 = λ t k. m.p0 t (λ x u. f.p0 x u k);
  p1 = λ t k. m.p1 t (λ x u. f.p1 x u k);
  p2 = λ t k. m.p2 t (λ x u. f.p2 x u k);
}

module _ {P : Platform} {R : Type 0} (ids : Trio Identity) {s : Trio (Session P)} where
  pub pure-Yields :
      {A : Type 0} (a : Trio A) {Good : Trio A → Type 0}
      → IsReady ids s
      → Good a
      → Yields {R = R} ids s (record { p0 = pure a.p0; p1 = pure a.p1; p2 = pure a.p2 }) Good
  pure-Yields a h good = record {
    value = a;
    after = s;
    ready = h;
    good = good;
    runs = λ k. lead_end ids h.apart _ _ _ (λ i j. refl);
  }

  pub then-Yields :
      {A B : Type 0} (m : Trio (Program P R A)) (f : Trio (A → Program P R B))
      {Good : Trio A → Type 0} {Next : Trio B → Type 0}
      → Yields ids s m Good
      → ((a : Trio A) (s' : Trio (Session P))
          → IsReady ids s'
          → Good a
          → Yields ids s' (each f a) Next)
      → Yields ids s (then m f) Next
  then-Yields m f y next =
      let z = next y.value y.after y.ready y.good in
      record {
        value = z.value;
        after = z.after;
        ready = z.ready;
        good = z.good;
        runs = run_bind ids m f s y.after z.after y.value z.value y.runs z.runs;
      }

  -- The same where the values are known by what they are made of.
  pub then_made-Yields :
      {A B T : Type 0} (made : T → Trio A) {Good : T → Type 0} {Next : Trio B → Type 0}
      (m : Trio (Program P R A)) (f : Trio (A → Program P R B))
      → Yields ids s m (λ v. (t : T) × (v ≡ made t) × Good t)
      → ((t : T) (s' : Trio (Session P))
          → IsReady ids s'
          → Good t
          → Yields ids s' (each f (made t)) Next)
      → Yields ids s (then m f) Next
  then_made-Yields made m f y next =
      then-Yields m f y λ a s' h (t, e, good). rw e (next t s' h good)
