-- ===== src/Lib.antt =====
-- Auspex's supervision of managed agents, the secrets it lends to workers, the instances it knows,
-- its policy for host actions, its timeline of audit, the ports of its agents, and who may
-- call its operator.
--
-- A parent session asks for work; Auspex gives it to a worker as a run, follows the run through its
-- states, and answers for it. A worker that is launched with secrets gets them through a grant that
-- is redeemed once. The session keeps a registry of the instances that it has seen, and sends
-- commands to one of those that are attached. The parts, and the files that model them:
--
-- - ManagedAgent/Domain, ManagedAgent/Run: one run (auspex-core/src/managed_agents.rs). The record
--   ManagedAgentRun is the struct; each of its methods is an action that returns a result and the
--   run. Run/Events has the calls of the methods as values, Run/Invariant what every call keeps, and
--   Run/Lifecycle which states each call moves a run between.
-- - ManagedAgent/Contract: the messages between Auspex and a worker, and their validation
--   (auspex-core/src/managed_agent_supervisor.rs); Contract/Acks and Contract/Laws say which are
--   valid. ManagedAgent/Command has the commands of auspex-core/src/runtime_types.rs.
-- - ManagedAgent/Runtime: ManagedAgentSupervisorRuntime (auspex-core/src/managed_agent_runtime.rs).
--   Its state is a record of three maps: the runs, the commands that were sent, and the run of each
--   command. Runtime/Prepare has `prepare_run`, `dispatch` (dispatch_run), `poll_command`,
--   `cancel_command` and `request_a2a_cancellation`; Runtime/Delivery the receipts, the
--   acknowledgements and the replay; Runtime/Answer `apply_response_json` and `apply_a2a_event`;
--   Runtime/Sweep what is done to all runs at once. Entries, Coherence, Keeps and Steps are about
--   its invariant; Preparation, Settling, Replay, Polling, Expiry, Connection and Cancellation about
--   its operations.
-- - ManagedAgent/Projection: what a parent may read (managed_agent_runtime.rs, and
--   auspex-core/src/managed_agent_feature.rs).
-- - ManagedAgent/Coordinator: the mutations that a parent asks for
--   (auspex-core/src/managed_agent_mutation_coordinator.rs and the methods of AppController that it
--   calls, auspex-core/src/controller.rs). They go to the supervisor, and from there to the MQTT
--   bearer as actions. Coordinator/Idempotence is about commands that are repeated.
-- - ManagedAgent/Scheduler: the methods of AppController that dispatch, cancel and tick the runs
--   on Omegon's control plane (auspex-core/src/controller.rs).
-- - ManagedAgent/Mqtt, ManagedAgent/Outcome: the envelopes and events of the MQTT bearer
--   (auspex-core/src/managed_agent_mqtt.rs). An event that is decoded goes to the supervisor's
--   `apply_a2a_event`.
-- - HostAction: which host actions may enter the path of approval and audit
--   (auspex-core/src/host_action_policy.rs).
-- - Worker: the types that describe a worker and a request for one
--   (auspex-core/src/runtime_types.rs), shared by the next two parts.
-- - Secrets/Grant, Secrets/Broker: grants, leases and FileSecretGrantBroker
--   (auspex-core/src/secret_grants.rs). The broker's state is its store; each of `create_grant`,
--   `redeem_grant`, `renew_lease` and `revoke_lease` is an action on it. Secrets/Preparation is
--   auspex-core/src/secret_orchestration.rs, a client of the interface SecretGrantBroker (the
--   trait), which the file broker fills. Outcomes, Soundness, History, Revocation and Launch are
--   about what these do.
-- - Instances/Record, Instances/Registry: the records of instances (runtime_types.rs) and their
--   store (auspex-core/src/instance_registry.rs); Registry/View is the store as a map from
--   ids, and Registry/Rehydration is about a store that was saved.
-- - Instances/Attached, Instances/Synthesis, Instances/Engine: AttachedInstanceStateEngine
--   (auspex-core/src/state_engine.rs): the instances that a snapshot of the session names, the
--   record that is made for each of them, and the engine's methods. Engine/Routes is about where a
--   command goes, Engine/Lifecycle about ageing, Engine/Ownership about attaching, detaching and
--   purging, Engine/Steps and Engine/History about its invariant.
-- - Instances/Inventory: the requests of auspex-core/src/runtime_inventory.rs; Inventory/Store the
--   answers that are kept, by instance and request. Inventory/Store/Answers is about the events of
--   instances, and Inventory/Store/Traffic about their loss.
-- - Instances/Compatibility: whether an observed control plane may be used
--   (auspex-core/src/compatibility.rs). Instances/Capability and Instances/Profile: what an instance
--   says that it can do (auspex-core/src/capability_registry.rs, operational_profile.rs).
-- - Audit/Entry, Audit/Store: the timeline of audit (auspex-core/src/audit_timeline.rs) and the
--   transcripts that it is made of (auspex-core/src/fixtures.rs); Audit/Growth and Audit/Snapshot say
--   what is added to it.
-- - Ports: the ports of local agents (auspex-core/src/local_agent_ports.rs); Ports/Choice and
--   Ports/Allocation are about the choice and about the file of reservations.
-- - Operator/ApiAuth, Operator/ApiRequest: which requests the operator's API lets in
--   (auspex-operator/src/main.rs). A text is the list of its bytes there.
-- - Prelude: results and actions, tests, texts, decimal numbers, bitwise operations (Prelude/Bits),
--   and `BTreeMap` as a sorted association list (Prelude/Maps).
-- - Examples: the theorems at concrete inputs, in modules that are named for the parts.
--
-- How the code is read. A method on `&mut self` takes the state and returns its result and the state,
-- which comes back with an error too: what was written before an error stays written. A number is a
-- natural number; `checked_add` and `saturating_add` have their limits written out (u32_max, u64_max,
-- the last instant of a Clock). An i32 and an f64, which the modelled code only stores, are carried as
-- their bits. An id (a Uuid) is its number, and ids that are fresh, readings of the clock and the
-- order of a hash set are arguments. Most loops are recursion on lists. The two that need fuel are in
-- the Prelude: printing a number n in decimal has n + 1 rounds, and each round divides by ten;
-- `trim_start_matches` has as many rounds as the text has characters, and each removes at least one.
--
-- Parameters that stand for other code: serde_json (ManagedAgent/Serde, Json in Instances/Profile,
-- InventoryJson in Instances/Inventory/Store), the crates of the bearer (A2aCrates in
-- ManagedAgent/Mqtt), the connected sessions (is_connected in ManagedAgent/Scheduler), the crate
-- semver (Semver in Instances/Compatibility), which ports the operating system has free and whether a
-- file can be written (is_available and write in Ports), and what the lock, the clock and the file
-- system answer to one call of the secret broker (Turn in Secrets/Broker).
--
-- What is not modelled: sockets, files, the broker's client and the tasks that drive them; the texts
-- of the errors that the controller formats, which are constructors; the rest of the controller,
-- remote sessions, authorization (a wrapper of a crate), the rest of the operator, the packages,
-- telemetry, and the user interface.
pub mod Prelude
pub mod ManagedAgent
pub mod HostAction
pub mod Worker
pub mod Secrets
pub mod Instances
pub mod Audit
pub mod Ports
pub mod Operator
pub mod Examples
