-- ===== src/Lib.antt =====
-- BluePods: a decentralised cloud in Go, and what of its protocol core is modelled here.
--
-- The program. Validators order transactions on a DAG of vertices (internal/consensus), execute them
-- on objects (internal/state), and publish Merkle roots of their state (internal/index). Consensus
-- owns the economy: it charges fees to coins, bonds and delegates stake, issues and distributes
-- rewards, and counts quorums by capped stake. All of these act on the same three stores: the
-- objects, the validator set and the supply counters.
--
-- The files.
--  - Prelude, Word, Bytes, Types: shared helpers. Word has uint64 with its wrap-around and the
--    saturating safeMul, safeAdd and subFloor; Bytes the fixed-width integers of encoding/binary;
--    Types the 32-byte hash, as a list of bytes, and the declared operations.
--  - Fees: internal/consensus/fees.go. A HolderFunc is an argument.
--  - Validators: internal/validators/validators.go, a slice with an index of its keys. A run-time
--    panic is the value `none`; `view` reads the set as a finite map.
--  - Stake: internal/consensus/stake.go and reachesStrictQuorum of anchor_decision.go.
--  - Staking: bonding, unbonding, delegation and its withdrawal, of internal/consensus/commit.go and
--    delegation.go; Text has the text constants as bytes. BLAKE3 is an argument.
--  - Thermostat: the issuance control loop of internal/consensus/thermostat.go.
--  - Rewards: the reward split of internal/consensus/delegation.go and the scan for positions of
--    internal/state/delegation.go; the database's keys in iteration order are an argument.
--  - Distribution: the credits of an epoch, of internal/consensus/epoch.go.
--  - Tracker: internal/consensus/tracker.go and walk.go. A stored value is its bytes; the walks recurse
--    on the code's own bound of 256 edges.
--  - Deletion: settleDeletion of internal/consensus/commit.go.
--  - Smt: the sparse Merkle tree of internal/index/smt.go and smt_inc.go, and its proofs, of proof.go,
--    in Smt/Proofs. BLAKE3 is an argument. `get` is `some` when Get's flag is true; Get hands out an empty
--    stored value as a nil slice, which is the empty list here.
--  - Registry: the domain store of internal/state/domain.go and state.go, and the rules of names and
--    leases of internal/consensus/domainops.go.
--  - Staged: the staged view of internal/consensus/staged.go and staged_domain.go.
--  - Ops: declared operations at commit, internal/consensus/ops.go and domainops.go, over the ledger of
--    Deletion. The transaction's operations and the epoch of the commit round are arguments.
--  - Dict: Go maps that are iterated, and sorted keys.
--  - Anchor: the citations of internal/consensus/anchor_decision.go and the verdict of a tally, over the
--    part of store.go that they read.
--  - Causal: the causal batch of internal/consensus/anchor.go.
--  - Rounds: the epoch of a round and its holder snapshot (internal/consensus/epoch.go), the eligible
--    members (eligible.go), the designated producer (anchor.go) and the regime (regime.go). BLAKE3 is an
--    argument, and the store and the epoch's fields are one record.
--  - Decision: the anchor rule of internal/consensus/anchor_decision.go.
--  - Supply: internal/state/supply.go with the persisted copies of both counters.
--  - Coins: internal/consensus/coins.go, the object store of internal/state/store.go and strictDebit
--    of internal/consensus/commit.go. An error is `none` in place of the new state.
--
-- Conventions. A Go uint64 is a natural number, and each operation that can wrap has its modulus
-- written out; a theorem that needs a value to be in range says so. An int that counts things is a
-- natural number. An object is the record that its FlatBuffers encoding carries. Mutexes are left
-- out: each operation is one step. Logging is left out.
--
-- Recursion. Loops over lists are structural. The two walks of the tracker take as fuel the code's own
-- limit of 256 edges, and do at its end what the code does there. The causal walk has one unit more
-- than the stored vertices have parents, and the scan of a round the number of rounds up to the latest.
--
-- Not modelled. The walks over missing ancestors, the regime's latch, the validation of vertices and the
-- writes of the vertex store, the fee and registration steps of the commit pipeline, the epoch
-- transition, the trees over the state, the sweep of expired names and the snapshots are Go code that
-- the files here do not cover yet. The network, the pod machine, storage, the generated FlatBuffers
-- code, BLS and BLAKE3 are other programs' work or input and output.
pub mod Prelude
pub mod Types
pub mod Word
pub mod Text
pub mod Bytes
pub mod Fees
pub mod Validators
pub mod Stake
pub mod Supply
pub mod Coins
pub mod Smt
pub mod Staking
pub mod Thermostat
pub mod Rewards
pub mod Distribution
pub mod Tracker
pub mod Deletion
pub mod Registry
pub mod Staged
pub mod Ops
pub mod Dict
pub mod Anchor
pub mod Causal
pub mod Rounds
pub mod Decision
