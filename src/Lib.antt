-- ===== src/Lib.antt =====
-- GitMesh keeps Git repositories on a network of peers. This library models the crates that hold its
-- protocol data and its state: content identifiers, identities, refs under compare and swap, accounts
-- with sessions, and the log of collaboration events.
--
-- The files, each with the code that it models:
--   Core           crates/gitmesh-core/src/lib.rs: hexadecimal digits (Core/Hex), `Cid` and its text
--                  (Core/Cid), `ProtocolEnvelope` and the transcripts that are hashed (Core/Envelope).
--   Crypto         crates/gitmesh-crypto/src/lib.rs: encrypted segments and wrapped repository keys.
--   Identity       crates/gitmesh-identity/src/lib.rs: device certificates (Certificate), grants of
--                  repository keys (Grant), `RepoKeyGrantStore` (GrantStore).
--   Git            crates/gitmesh-git/src/lib.rs: `GitSha1Oid` (Oid), objects (Object), trees and
--                  commit links (Tree), packs (Pack): headers, deltas, the resolution of entries,
--                  whole packs.
--   Coordination   crates/gitmesh-coordination/src/lib.rs: names (Names), `RefUpdate` and its signature
--                  (Update), `RepoPolicy` (Policy), `RefCheckpoint`, its signature and
--                  `RefMutation` (Checkpoint), `RefStore` (Store), the loader's replay
--                  (Store/Consistency), the text of both snapshots (Policy/Snapshot,
--                  Store/Snapshot).
--   Accounts       crates/gitmesh-accounts/src/lib.rs: checks of fields (Fields), profiles and
--                  repositories (Store), sessions (Sessions), sequences of calls (Runs),
--                  the text of the store (Snapshot).
--   Collaboration  crates/gitmesh-collaboration/src/lib.rs: events and their canonical body (Event),
--                  the log and its summaries (Store), its text (Snapshot).
--   Prelude, SortedMap, Text, SnapshotText   what the crates use of the standard library: results,
--                  orders, `BTreeMap`, texts, decimal numbers, lines of fields.
--
-- How they interact: every protocol identifier is a `Cid` of the core. An update of a ref is signed by a
-- device that an account has certified (Identity), is authorized by a policy, and is applied to a
-- store, which keeps a receipt for each transaction and a chain of checkpoints over its mutations.
-- Events of the collaboration log are signed in the same way.
--
-- How code and model correspond. A text is the list of its UTF-8 bytes. A `&mut self` method is a
-- function from a store to a store and a result; a method that returns an error before it writes
-- returns a `Result` with the new store inside, and one that may fail after it has written returns
-- the store beside the result. A `BTreeMap` is the list of its entries in the order of the keys, a
-- `BTreeSet` a map into the unit type. An unsigned number is a natural number: 64-bit sums of the
-- ref store wrap around as in a release build, a policy's epoch saturates as `saturating_add` does,
-- `put_bytes` refuses a length that does not fit in 32 bits, and a parsed number is refused above
-- the width's largest value. A loop over a finite list is structural
-- recursion. The others run on fuel: the digits of a number n on n + 1, since each digit divides n by
-- ten; the size in the header of a pack's entry on nine groups of seven bits, which a 64-bit number
-- above its lowest four bits has; a tree's entries and a delta's commands on the bytes that are left,
-- of which each round takes one at least; and `resolve_pack_entry`, which calls itself, on one call
-- more than there are entries, since each call marks an entry. `GitError.out_of_fuel` would show a
-- shortage.
--
-- Parameters: BLAKE3 (`Blake3`: any function into 32 bytes), Ed25519 (`Ed25519`: signatures by
-- a seed verify under its public key), XChaCha20-Poly1305 (`Aead`: what is encrypted is decrypted),
-- SHA-1 (`Sha1`: any function into 20 bytes) and zlib (`Zlib`: a stream is read back, whatever follows
-- it). Random bytes and the current time are arguments. Core/Tests, Git/Tests and Identity/Tests
-- instantiate the parameters.
--
-- Not modelled: file reads and writes, the system clock, key generation, allocations that the machine
-- cannot serve, and the crates for storage, network, the daemon and the command line, which are input
-- and output over these or are still to be modelled.
pub mod Prelude
pub mod SortedMap
pub mod Text
pub mod Core
pub mod Crypto
pub mod Git
pub mod Identity
pub mod Coordination
pub mod SnapshotText
pub mod Accounts
pub mod Collaboration
