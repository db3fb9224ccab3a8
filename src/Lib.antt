-- ===== src/Lib.antt =====
-- A model of the core of envctl: the broker that decides whether a bearer may use a real key, the
-- vault and the audit log behind it, and the environment engine: its registry of components, the
-- guards in front of destructive phases, the run over the components, and the drift report.
--
-- The relay path. A client presents a bearer for an upstream request. The engine parses it, looks its
-- row up in the store, checks the MAC of the bearer and the MAC of the row, counts the use, and calls
-- the pure decision; only when that allows the request is the real key opened and handed to the
-- upstream. Each step leaves a row in a hash-chained audit log, whose tail is anchored by a MAC under
-- the vault's key. A bearer is minted behind the presence gate, and revoked alone or with its relay.
--
-- A run. The registry sorts the components behind their requirements. A run selects components, for a
-- removal checks the reset's gates, and takes each in turn: it probes, runs the phase's hook behind
-- the guards, edits the wiring, verifies again, and enters the outcome on the summary's rosters.
-- Paths below are from the repository's root.
--
--   Broker/Policy      crates/secrets-engine/src/broker/policy.rs: RelayPolicy, canonical_upstreams, clamp_ttl
--   Broker/Gate        crates/secrets-engine/src/broker/gate.rs: GateState, gate_absent_since_ms
--   Broker/Decide      crates/secrets-engine/src/broker/decide.rs: decide and its checks
--   Broker/Usage       crates/secrets-engine/src/broker/mod.rs: Broker, BearerCounters, bump
--   Broker/Wire        crates/secrets-engine/src/broker/mod.rs and token.rs: the wire form and the MACs
--   Vault/Rows, Store  crates/secrets-engine/src/vault/store.rs: the rows and InMemStore
--   Vault/Aad          crates/secrets-engine/src/vault/aad.rs: record_aad
--   Audit              crates/secrets-engine/src/vault/audit.rs: the chain; append_audit of store.rs
--   Audit/Anchor       crates/secrets-engine/src/lib.rs: the audit anchor
--   Relay              crates/secrets-engine/src/lib.rs: relay_swap
--   Relay/Revocation   crates/secrets-engine/src/lib.rs: relay_revoke_bearer
--   Relay/Mint         crates/secrets-engine/src/lib.rs: mint_bearer_core, relay_mint, relay_mint_remote
--   Relay/Relays       crates/secrets-engine/src/lib.rs: relay_revoke
--   Hex                crates/secrets-engine/src/lib.rs: hex_encode, hex_decode, b64url_nopad
--   Manifest           crates/engine/src/component.rs and model.rs: the manifest's data
--   Registry           crates/engine/src/model.rs: topo_sort, closure, reverse_dependents
--   Graph              crates/engine/src/graph.rs: dependency_paths
--   Host               what the engine asks of the machine: HookRunner of crates/engine/src/component.rs,
--                      commands, files and the edits of crates/engine/src/wiring.rs, as an interface
--   Guard              crates/engine/src/guard.rs: the guards and verify_path_uuid
--   Executor           crates/engine/src/error.rs: run_phase
--   Executor/Step      crates/engine/src/executor.rs: the body of the loop of run
--   Executor/Select    crates/engine/src/executor.rs: the selection, the reset's gates, and run
--   Drift              crates/engine/src/drift.rs: compute and DriftSummary
--   Wiring             crates/engine/src/wiring.rs: the text edits of the shell files
--   Wiring/Machine     the file operations and commands that wiring.rs uses, and its error handling
--   Wiring/ShellRc, System, Apt
--                      crates/engine/src/wiring.rs: one function for each kind of wiring
--   Wiring/Apply       crates/engine/src/wiring.rs: apply and revert
--   ConfigEdit         crates/agent-env/src/config_edit.rs: insert_item, remove_item, item_exists
--   ConfigEdit/Names   crates/agent-env/src/config_edit.rs: remove_names, split_at_ref
--   ConfigEdit/Lines   crates/agent-env/src/config_edit.rs: the line helpers and parse_items
--   Prelude, Text, Slices, Map, Sets, Encoding: tests, integers, lists, operations on texts,
--                      association lists, ordered sets and big-endian encodings that the others share
--
-- State is passed explicitly: a handler takes the state and returns the next one with its result. The
-- locks of the source make each handler one step. The error results are values: `Option`, or a data
-- type with the source's outcomes.
--
-- Numbers. An `i64` is an integer, with `saturating_add`, `_sub` and `_mul` written out on the bounds
-- of 64 bits; where the source adds without saturation (the next sequence number, the next row id, a
-- secret's next version) the model does not wrap, and a secret's version, a `u32` in the source, has
-- no bound. Other values of `u32` or `u64` are natural numbers, and a counter that saturates is capped at
-- its largest value. A text is a list of bytes.
--
-- Fuel. Loops are structural recursion but for three. The work list of topo_sort has the number of
-- components as its fuel, which is enough, since each round puts out one component. is_prereq_of
-- recurses through the requirements and does not end on a cycle; closure, reverse_dependents and run
-- take its fuel, and the length of the registry's order is enough where there is an order.
-- dependency_paths recurses along chains without repetition; fuel above the number of components is
-- enough.
--
-- Parameters. BLAKE3 (`hash`, and `Crypto` for the keyed hash and the key derivation), the JSON
-- serialiser (`to_vec`), the AEAD's opening of a sealed record and the upstream's `send` are not part
-- of the repository, nor are blkid, findmnt, the file system and the hooks, which `Host` stands for.
-- To the run, the wiring's edits are part of `Host`; the module Wiring has them in full, over the file
-- operations and commands of `Machine`. A theorem that needs a hash free of collisions says so for the
-- rows at hand, and one that needs reads to show what was written assumes `IsFaithful`.
--
-- Not modelled: the vault's lifecycle and keyslots, the swap of the remote plane, the certificate
-- authority, the libSQL store, the daemons and their protocol, add_repo, the dependency graph's
-- summary and drawing, the rest of agent-env, and the front ends. White space is that of ASCII. The
-- reads and writes of the meta table are left out, so a stored text that does not parse is not
-- represented. Emitted events that only mirror an audit row are left out.
pub mod Prelude
pub mod Slices
pub mod Text
pub mod Map
pub mod Sets
pub mod Encoding
pub mod Broker
pub mod Vault
pub mod Audit
pub mod Hex
pub mod Relay
pub mod Manifest
pub mod Registry
pub mod Graph
pub mod Host
pub mod Guard
pub mod Executor
pub mod Drift
pub mod Wiring
pub mod ConfigEdit
