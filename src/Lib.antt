-- ===== src/Lib.antt =====
-- iris-mpc computes, between three servers and without revealing them, distances between iris
-- codes. This library models the secret sharing and the protocols of the CPU engine
-- (iris-mpc-cpu), from ring elements to whole runs of three parties over the network.
--
-- The parts and their files:
--
--   Prelude: names of the standard library, and lemmas on lists, bits and remainders that the
--   parts share.
--   Id: the party identifiers of iris-mpc-common/src/id.rs, as `PartyId`, `next_id` and `prev_id`.
--   `Trio` holds one value of each party.
--   Execution: roles and their assignment to identities (Role,
--   iris-mpc-cpu/src/execution/player.rs), what a party knows of a session (Session,
--   execution/session.rs), and the sessions of a local run (Local, execution/local.rs).
--   Network: the messages (Value, iris-mpc-cpu/src/network/value.rs); what a party's asynchronous
--   code does on the network (Process); the channels of network/local.rs and the steps that the
--   parties take (Local). A party ends with a result or an error, sends, or waits on the channel
--   of one sender. `Step` is one step of one party, and `Reach` any number of steps in any order.
--   Shares: rings of k bits with wrap-around (RingElement, iris-mpc-cpu/src/shares/ring_impl.rs
--   and int_ring.rs), the ring of one bit (Bit, shares/bit.rs), replicated shares (Share,
--   shares/share.rs), vectors of them (VecShare, shares/vecshare.rs), and the transposition of
--   their bits (Transpose for arrays, TransposePack for vectors, shares/vecshare_bittranspose.rs).
--   There, Rounds says what a round does to every row, Places and Bits where every bit comes from,
--   Within what a transposition is to give, and Tables and Filled how the loop over the groups
--   fills the rows. An element of a ring is a natural number, below two to the power k where a
--   statement needs it. Sharing says what the three parties' shares stand for.
--   Protocol: the generators (Prf, iris-mpc-cpu/src/protocol/prf.rs) and the protocols of
--   protocol/binary.rs (And, Pack, Adder, Extract, Inject, Convert, Lift, Open) and
--   protocol/ops.rs (Ops, SignedLift, Compare, Distance). A protocol is a `Program`: it reads and
--   changes its party's session, and is written with do blocks in the order of the source. Run and
--   Compose put together runs of the three parties; Ends states whole runs. Below Adder, Circuit
--   holds the circuit over any values, Sum shows what it computes on bits, Slices and Rows are
--   vectors of shared words, and Columns reads the bits of one place across the rows. Extract puts
--   the transposition and the adder together, and Lift the transposition, the adder and the bit
--   injection. Distance puts the dot products, the lifting and the comparison together, down to
--   whether two irises match.
--   Galois: the Galois ring of iris-mpc-common/src/galois.rs, with its three bases, powers and
--   inverses. Ring has its laws, and Galois.Shamir the shares in it, with what they reconstruct
--   to.
--   IrisCode: iris codes, their bits, and their distance in the clear
--   (iris-mpc-common/src/iris_db/iris.rs). Arrays, Writes and Iterator say what the operations
--   read, write and give in order.
--   GaloisEngine: the shares of codes and of masks, and their dot products
--   (iris-mpc-common/src/galois_engine.rs). Positions says where the bits go, Dot and Full what
--   the dot products are, Counts and Order what they count, Shares what the three parties have of
--   two irises, and Rotations what the rotations of a code are. `prepare` is what prepare_query of
--   iris-mpc-cpu/src/hawkers/galois_store.rs does to a share.
--   Shamir: Shamir sharing modulo a prime of 16 bits (iris-mpc-common/src/shamir/mod.rs).
--   Sync: the decision on a rollback when the servers' databases differ
--   (iris-mpc-common/src/helpers/sync.rs).
--   Tests: concrete inputs, and the theorems at them.
--
-- The crates aes_prng and bincode are the parameter `Platform`: a generator made from a seed,
-- whose numbers are below the width that was asked for, and bytes from which the encoded value is
-- decoded again. Nothing is assumed of the quality of the random numbers, and no secrecy is
-- stated.
--
-- The loop of the algorithm of Euclid has fuel, one round more than its second number, of which
-- every round leaves a smaller one. The loops of the transposition, which halve a distance and
-- skip over rows, have fuel for one round more than there are rows, or than the distance can be
-- halved; the theorems show that they end. All other loops of the CPU engine go along vectors. A
-- random generator of Shamir sharing is the list of the numbers that it gives. A run is a sequence
-- of steps, so that a party that waits for ever cannot be mistaken for one that ends. A result
-- `none` is an error or a panic of the source.
--
-- The messages of a channel arrive in the order in which they were sent, as on the unbounded
-- channels of network/local.rs. The identifier of a session is carried but, as there, not read: a
-- network holds one session.
--
-- Roles are numbers of 8 bits of which a sum with 1 is taken; there are at most three, so that it
-- does not overflow. The products of 32 bits in Shamir sharing are of factors below the prime and
-- do not overflow either.
--
-- A random element of the Galois ring is an argument, and the theorems hold for every one. The
-- loop of the power in the Galois ring has the exponent as its fuel, which every round at least
-- halves. The iterator over the bits of a code is read with fuel for one step more than there are
-- bits. An array of 200 words is a function of the index of a word, and a vector of coefficients a
-- list. A distance between irises is a pair of two counts, and is compared with the threshold
-- exactly: the source divides numbers of at most 12,800 in floating point, where no quotient is
-- rounded across the threshold.
--
-- Not modelled of the CPU engine: VecShare::pack, the stores and the service of the graph search,
-- and the gRPC transport. Also not modelled: texts in base 64, random codes, the GPU engine with
-- its kernels, the servers and their cloud services, the database, the upgrade of old databases,
-- the bindings to Python, and the generation of test data.
mod Prelude
pub mod Galois
pub mod IrisCode
pub mod GaloisEngine
pub mod Id
pub mod Shamir
pub mod Sync
pub mod Execution
pub mod Network
pub mod Shares
pub mod Protocol
mod Tests
