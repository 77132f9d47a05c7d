-- ===== src/Lib.antt =====
-- A model of ONTO, an ontological context system for one operator that can federate with peers.
--
-- The program takes inputs, records what happens in an append-only audit table whose rows are chained
-- by digests, keeps a graph of concepts, and exchanges parts of that graph with other nodes. The parts
-- that carry its guarantees are modelled one module each:
--
-- Memory: modules/memory.py. `Db` is the table events with its id counter, an `Event` a row.
-- record_event is record, made of the read compute_chain_hash and the insert insert_event; log_read_access
-- keeps its name. A column context is a `Column`, JSON with the value that is hashed, or a text for None. Memory/Chain has the two verifiers
-- verify_chain and verify_chain_tail, whose loop variables are the record Walk; Memory/Prune has
-- prune_payload_by_age, Memory/Trigger the trigger prevent_update. Memory/Linked, Evidence, Tail, Race
-- and Prune/Gaps prove what the verifiers notice and what they do not.
--
-- Crdt: api/federation/crdt.py. Crdt/VectorClock models VectorClock and the comparisons,
-- Crdt/OrSet models ORSet, Crdt/Registers models LWWRegister, GSet and PNCounter, and Crdt/MergeSets
-- models merge_node_sets and merge_edge_weights, which use the clocks.
--
-- Ratelimit: core/ratelimit.py. The deque is a list of times; check, record (record_input),
-- check_and_record, current_count and reset keep their shape, and rate_limit_middleware of api/main.py
-- asks the two limiters in turn. Ratelimit/Spec has the ideal limiter, Bound and Wait the proofs.
--
-- CircuitBreaker: api/federation/circuit_breaker.py. before_call, on_success, on_failure and reset are
-- steps on the record Breaker; CircuitOpen is the answer circuit_open. Machine and Probe have what
-- holds after any sequence of events, Registry the dict of breakers.
--
-- Session: core/session.py. `SessionManager` has the dict of sessions by token, the audit log in
-- memory and the last token; Session/Manager has start, validate, rotate, terminate, is_active,
-- active_session and update_data_classification. Session/Purge, Capacity, Tokens and
-- Accepts have the proofs, and Rotation what holds of a rotated token from then on.
--
-- Safety: api/federation/safety.py. check_outbound is check_absolute_barriers and then the configurable
-- controls; check_inbound walks a payload, which is a Value. Safety/Barriers and Inbound have the proofs.
--
-- Graph: modules/graph.py. The record `Graph` has the tables of nodes, edges, provenance and counters.
-- upsert_node and upsert_edge write them; Graph/Relate has relate, Graph/Maintain has prune, decay and
-- wipe, Graph/Navigate has navigate with its two searches, Graph/Operations sequences of the operations.
-- Graph/Well, Stored, Counts, Deleted and Navigate/Sound have the proofs. Formulas over floating-point
-- numbers, the extractor and the PageRank library are parameters.
--
-- Consent: api/consent. Consent/Ledger models ConsentLedger of ledger.py, Consent/Gate the ConsentGate of
-- enforcement.py, which asks it; Covered and Revocation have the proofs.
--
-- Federation/Audit: api/federation/audit.py, the tables outbox and inbox with the numbering of messages,
-- and the rate limit per peer with its backoff. Federation/Consent: api/federation/consent.py, the
-- ledger of consents with its digest chain; a Call is one of grant, revoke and reconfirm.
-- Federation/Resilience: api/federation/network_resilience.py, the metrics of a peer and resilient_call,
-- whose loop runs by the attempts that are left and asks the breaker of CircuitBreaker.
-- Federation/Local: api/federation/local.py, the numbering and the gate of share and receive.
--
-- Federation/Adapter: LocalAdapter of that file over all of these: `Adapter` is the state of a node,
-- handle_message what a message does that arrives, a Step that or an operation of the operator; can_share
-- asks the consents and the filter, recall revokes, receive hands accepted texts to relate. Effects, Recall
-- and Ingest have the proofs.
--
-- Federation/Identity: api/federation/node_identity.py, base58btc and the names did:key of public keys,
-- with signatures of payloads. Letters, Zeros, Bytes and Digits have the parts of the two conversions,
-- RoundTrip, Canonical and Names what they say of each other. Federation/PeerStore:
-- api/federation/peer_store.py, the table of pinned certificates; Trusted has the proofs.
--
-- Federation/Capability: api/federation/capability.py, the signed manifests of nodes, with handshake and
-- verify_peer of LocalAdapter, which exchange and keep them; Handshake has the proofs.
--
-- Federation/Regulatory: api/federation/regulatory.py, the four profiles and their registry;
-- Regulatory/Internet has the two gates of InternetAdapter in api/federation/internet.py, which ask those of
-- LocalAdapter and then the registry. Regulatory/Complies has what the profiles ask for.
--
-- Auth: core/auth.py. `AuthManager` counts the failures and has the time of the lockout, `AuthState` is
-- auth.json; authenticate is authenticate_with if there is a setup, and conclude after the comparison.
-- Lockout and Setup have the proofs.
--
-- Prelude has the shared names, Boolean tests, lists, sets of texts and Python's dict.
--
-- Conventions. Times are natural numbers of ticks (microseconds in Memory, which rounds to seconds
-- where the source does), since the code only compares and subtracts them; amounts and scores that
-- the code only compares or adds are natural numbers too. A dict is an association list in the order
-- of insertion, a set of texts a list read by membership. SHA-256 over canonical JSON, the parser of
-- JSON and random tokens are parameters; where a theorem needs that the digest has no collisions, this
-- is a hypothesis. Loops are structural recursion on the list that the source walks; only the loop that
-- divides a number in Federation/Identity has fuel, the number itself, which is proved to be enough.
-- An operation is one step, and what runs at once is a sequence of operations where a lock makes it so:
-- in Ratelimit, CircuitBreaker, Session, Graph and the rate limit of Federation/Audit. The other modules hold no
-- lock around a whole operation, record of Memory and receive of Federation/Local among them: their theorems are
-- about operations that run one after another, and Memory/Race and Federation/Local/Race about two that do not.
--
-- Not modelled: the web servers, the network transports, the files of keys and encryption, the
-- configuration from the environment, and the text that is generated for the operator.
pub mod Prelude
pub mod Auth
pub mod CircuitBreaker
pub mod Consent
pub mod Crdt
pub mod Federation
pub mod Graph
pub mod Memory
pub mod Ratelimit
pub mod Safety
pub mod Session
