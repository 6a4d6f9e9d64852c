-- ===== src/Protocol/Ends.antt =====
-- Whole runs of the protocols, from idle channels to every party's result, in any order of steps.
pub mod Inject
pub mod Pack
pub mod Adder
pub mod Extract
pub mod Compare
pub mod Lift
pub mod Match
use iris_mpc.Prelude.{ℕ, List, some, ◌≡◌, refl, length, zip_with, bit_and, AllPairs}
use iris_mpc.Id.{id0, id1, id2, Trio, map_trio, zip_trio, columns}
use iris_mpc.Execution.Role.{Identity}
use iris_mpc.Network.Process.{done}
use iris_mpc.Network.Local.{Config, Reach}
use iris_mpc.Network.Local.Queues.{Channels}
use iris_mpc.Network.Local.Confluence.{Distinct, Reach-confluent}
use iris_mpc.Network.Local.Leads.{Holds, idle}
use iris_mpc.Shares.RingElement.{wrapping_sub, wrapping_mul}
use iris_mpc.Shares.Share.{Share}
use iris_mpc.Shares.Sharing.{IsSharing, IsXorSharing}
use iris_mpc.Shares.Sharing.Additive.{IsAdditive}
use iris_mpc.Protocol.Platform.{Platform}
use iris_mpc.Protocol.Prf.{Prf}
use iris_mpc.Protocol.Prf.Zero.{IsSynced}
use iris_mpc.Protocol.Program.{Session, Program}
use iris_mpc.Protocol.Run.{IsParties, IsReady, Runs, start}
use iris_mpc.Protocol.Open.{open_bin}
use iris_mpc.Protocol.Open.Correct.{open_bin-Runs}
use iris_mpc.Protocol.And.{and_many}
use iris_mpc.Protocol.And.Correct.{AreXorShares, and_many-AndRun}
use iris_mpc.Protocol.Ops.{cross_mul, galois_ring_to_rep3, setup_replicated_prf}
use iris_mpc.Protocol.Ops.CrossMul.{cross_mul-Yields}
use iris_mpc.Protocol.Ops.Rep3.{AreShares, galois_ring_to_rep3-Yields}
use iris_mpc.Protocol.Ops.Setup.{setup_replicated_prf-IsSynced}

-- The three parties at the start of their programs, each of which gives its value as its result.
abbrev pub begin :
    {P : Platform} {A : Type 0}
    → Trio (Program P A A)
    → Trio (Session P)
    → Channels P.Bytes
    → Config P.Bytes A
begin m s n = record { parties = start m s (λ i a t. done (some a)); channels = n }

-- From `c` the parties can reach results of which `Good` holds, with no message left over.
pub record EndsFrom {B A : Type 0} (ids : Trio Identity) (c : Config B A) (Good : Trio A → Type 0)
    : Type 0 where
  pub value : Trio A
  pub good : Good value
  pub channels : Channels B
  pub quiet : Holds ids channels idle
  pub reaches :
      Reach ids c (record { parties = map_trio (λ a. done (some a)) value; channels = channels })

-- What a run from idle channels reaches, every other order of steps can still reach.
pub runs_end :
    {P : Platform} {A : Type 0} (ids : Trio Identity) (s s' : Trio (Session P))
    (m : Trio (Program P A A)) (a : Trio A) (n : Channels P.Bytes) (Good : Trio A → Type 0)
    {e : Config P.Bytes A}
    → Distinct ids
    → Runs ids m s a s'
    → Good a
    → Holds ids n idle
    → Reach ids (begin m s n) e
    → EndsFrom ids e Good
runs_end ids s s' m a n Good apart r good quiet here_to =
    let (n', quiet', reached) = r (λ i x t. done (some x)) n quiet in
    record {
      value = a;
      good = good;
      channels = n';
      quiet = quiet';
      reaches =
          Reach-confluent ids apart reached
            (elim [ id0 ↦ (some a.p0, refl) | id1 ↦ (some a.p1, refl) | id2 ↦ (some a.p2, refl) ])
            here_to;
    }

module _ {P : Platform} (ids : Trio Identity) (s : Trio (Session P)) (n : Channels P.Bytes) where
  -- Three parties with binary shares of the bit `x` run `open_bin` from idle channels. Wherever an
  -- order of their steps has taken them, they can go on until every party has the result `x` and no
  -- message is left over.
  pub open_bin_ends :
      (t : Trio Share) (x : ℕ) (e : Config P.Bytes ℕ)
      → IsParties ids s
      → IsXorSharing 1 t x
      → Holds ids n idle
      → Reach ids (begin (map_trio open_bin t) s n) e
      → EndsFrom ids e (λ v. v ≡ record { p0 = x; p1 = x; p2 = x })
  open_bin_ends t x e h hs quiet =
      runs_end ids s s (map_trio open_bin t) (record { p0 = x; p1 = x; p2 = x }) n _ h.apart
        (open_bin-Runs ids s t x h hs) refl quiet

  -- Three ready parties with binary shares of the words `xs` and `ys`, in vectors of one length, run
  -- `and_many` from idle channels. Wherever an order of their steps has taken them, they can go on
  -- until their results are binary shares of the ANDs of the words and no message is left over.
  pub and_many_ends :
      (us vs : List (Trio Share)) (xs ys : List ℕ) (e : Config P.Bytes (List Share))
      → IsReady ids s
      → AllPairs (IsXorSharing 64) us xs
      → AllPairs (IsXorSharing 64) vs ys
      → length us ≡ length vs
      → Holds ids n idle
      → Reach ids (begin (zip_trio and_many (columns us) (columns vs)) s n) e
      → EndsFrom ids e (AreXorShares 64 (zip_with bit_and xs ys))
  and_many_ends us vs xs ys e h hus hvs same quiet =
      let r = and_many-AndRun (List Share) ids s us vs xs ys h hus hvs same in
      runs_end ids s r.after (zip_trio and_many (columns us) (columns vs)) (columns r.shares) n _
        h.apart r.runs (r.shares, refl, r.correct) quiet

  -- Three ready parties with shares of numbers `d1`, `t1`, `d2` and `t2` of 32 bits run `cross_mul`
  -- from idle channels. Wherever an order of their steps has taken them, they can go on until their
  -- results are shares of `d2 * t1 - t2 * d1`, with wrap-around, and no message is left over.
  pub cross_mul_ends :
      (sd1 st1 sd2 st2 : Trio Share) (d1 t1 d2 t2 : ℕ) (e : Config P.Bytes Share)
      → IsReady ids s
      → IsSharing 32 sd1 d1
      → IsSharing 32 st1 t1
      → IsSharing 32 sd2 d2
      → IsSharing 32 st2 t2
      → Holds ids n idle
      → Reach ids
          (begin
            (record {
              p0 = cross_mul sd1.p0 st1.p0 sd2.p0 st2.p0;
              p1 = cross_mul sd1.p1 st1.p1 sd2.p1 st2.p1;
              p2 = cross_mul sd1.p2 st1.p2 sd2.p2 st2.p2;
            })
            s
            n)
          e
      → EndsFrom ids e
          (λ v. IsSharing 32 v (wrapping_sub 32 (wrapping_mul 32 d2 t1) (wrapping_mul 32 t2 d1)))
  cross_mul_ends sd1 st1 sd2 st2 d1 t1 d2 t2 e h h1 h2 h3 h4 quiet =
      let y = cross_mul-Yields Share ids s sd1 st1 sd2 st2 h h1 h2 h3 h4 in
      runs_end ids s y.after
        (record {
          p0 = cross_mul sd1.p0 st1.p0 sd2.p0 st2.p0;
          p1 = cross_mul sd1.p1 st1.p1 sd2.p1 st2.p1;
          p2 = cross_mul sd1.p2 st1.p2 sd2.p2 st2.p2;
        })
        y.value n _ h.apart y.runs y.good quiet

  -- Three ready parties with numbers of 16 bits that add up to `xs`, position by position, run
  -- `galois_ring_to_rep3` from idle channels. Wherever an order of their steps has taken them, they
  -- can go on until their results are replicated shares of `xs` and no message is left over.
  pub galois_ring_to_rep3_ends :
      (zs : List (Trio ℕ)) (xs : List ℕ) (e : Config P.Bytes (List Share))
      → IsReady ids s
      → AllPairs (IsAdditive 16) zs xs
      → Holds ids n idle
      → Reach ids (begin (map_trio galois_ring_to_rep3 (columns zs)) s n) e
      → EndsFrom ids e (AreShares 16 xs)
  galois_ring_to_rep3_ends zs xs e h cs quiet =
      let y = galois_ring_to_rep3-Yields (List Share) ids s zs xs h cs in
      runs_end ids s y.after (map_trio galois_ring_to_rep3 (columns zs)) y.value n _ h.apart y.runs
        y.good quiet

  -- Three parties with any seeds run `setup_replicated_prf` from idle channels. Wherever an order of
  -- their steps has taken them, they can go on until they have generators of which each party's
  -- second one is in the state of the previous party's first one, and no message is left over.
  pub setup_replicated_prf_ends :
      (seeds : Trio (List ℕ)) (e : Config P.Bytes (Prf P))
      → IsParties ids s
      → Holds ids n idle
      → Reach ids (begin (map_trio setup_replicated_prf seeds) s n) e
      → EndsFrom ids e IsSynced
  setup_replicated_prf_ends seeds e h quiet =
      let (q, synced, r) = setup_replicated_prf-IsSynced ids s seeds h in
      runs_end ids s s (map_trio setup_replicated_prf seeds) q n _ h.apart r synced quiet
