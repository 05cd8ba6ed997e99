-- ===== src/Lib.antt =====
-- The control plane of Audio Bodyguard, which decides whether a controller may act on a device. A
-- controller holds a resource through a lease with a fencing token; the lease authority issues,
-- hands over and validates leases. Signed grants, command proofs and remote results carry a lease
-- to another machine, and the authority gate admits each signed command once. The protection
-- supervisor says at every moment whether automation may act at all. The endpoint keeps its own
-- record of the fences that it has accepted.
--
-- Lease, Lease.Codec and Lease.Store model src/control/active_controller_lease.py and
-- src/control/controller_reauthorization.py. `Authority` is the three dictionaries of
-- ActiveControllerLeaseAuthority; acquire_body, handoff_body, reauthorize_body and validate_body
-- are what the methods do under the state guard, and Lease.Store adds the guard, the reload from
-- the file, the save and its failures (`Write`). Lease.Invariant holds the invariant of the state,
-- and the children of Lease.Store follow a lease or a grant through any later calls.
--
-- Supervisor and its children model src/control/protection_supervisor.py: `Supervisor` is the
-- object's state, the functions that end in _body are the methods, and status, interrupt,
-- require_revalidation, resolve_physical_transaction and Calls.validate are the methods under the
-- _serialized decorator, which counts the departures from ACTIVE in the generation. The result of
-- validate's checks is an argument, with the exceptions that a check may raise.
--
-- Protection models the assessments of src/control/protection_resource_assessment.py,
-- src/control/protection_storage_assessment.py and src/control/protection_path_assessment.py, and
-- Protection.Refresh the coordinator of src/control/protection_evidence.py, which asks a provider
-- for evidence and shows it to the supervisor, or interrupts it. Protection.Governor is the
-- resource governor of src/edge/resource_governor.py, whose decision the resource assessment
-- reads.
--
-- Evidence models src/control/controller_lease_grant.py, src/control/controller_command_proof.py
-- and src/control/remote_controller_protocol.py: the signed documents, their canonical bytes as
-- JSON values, and their verifiers. Signing, verification and hashing stand for the cryptography
-- library and are parameters: any function of the canonical document. Gate and its children model
-- src/control/controller_authority_gate.py over the states of the lease authority and of the
-- watermark file. Evidence.Genuine, Evidence.Bound and Lease.Store.Active hold what the verifiers
-- and the authority have checked, and Gate.Soundness puts them together for the gate's two
-- methods.
--
-- Fence, Fence.Codec and Fence.Store model src/device_fabric/monotonic_fence_anchor.py and
-- src/device_fabric/controller_fence_store.py. `Anchor` is the protocol MonotonicFenceAnchor over
-- the states of an anchor, with the law `Honest` that its client may use. `Files` is the primary
-- file, the copy of its records (the path that ends in .anchor) and the state of the anchor;
-- `accept` is the whole method, with what the file system does to each of the two saves as an
-- argument. The equality of two dictionaries is that of their keys and of the value at each key
-- (Prelude.Agree).
--
-- Endpoint models the journals of the device's side. Endpoint itself is the SQLite transaction
-- that src/device_fabric/endpoint_execution_ledger.py and
-- src/device_fabric/endpoint_handoff_barrier.py open around their work; Endpoint.Ledger is the
-- ledger, Endpoint.Guard the transport guard of
-- src/device_fabric/endpoint_ledger_guarded_transport.py (a request that it returns is one that is
-- handed to the transport), Endpoint.Installer the directives of
-- src/device_fabric/endpoint_handoff_fence.py and Endpoint.Barrier the barrier, whose install is
-- three steps between which other calls may come.
--
-- Media models src/control/media_control_capabilities.py: Media the enumerations and the bands,
-- Media.Manifest the capability manifests with their issuer and verifier, Media.Request the
-- requests, whose parameters are normalised when a request is made, and the gate. Frequencies and
-- gains are in the ticks of Prelude.Time, one million for 1.0.
--
-- Commit and Commit.Precondition model src/device_fabric/physical_commit_gate.py and
-- src/device_fabric/precondition_gate.py: `commit_intent` is the method commit up to the call of
-- the transport, and asks the lease authority of Lease.Store; whether a proposal is current is a
-- parameter, the adaptive memory's answer. Commit.Precondition.Current, Commit.Lowering and
-- Commit.Cleared say in terms of times, lists and states what an intent has passed.
--
-- ModelCache and ModelCache.Methods model src/edge/model_cache.py. `Cache` is the object's state;
-- a function is what a method does under one hold of the lock (add_entry, begin_evict,
-- finish_evict, enter, drop), or a whole method where no other thread comes in between (register,
-- set_memory_budget, evict, leave, enforce_budget). enforce has its rounds as fuel, and one more
-- than there are entries is enough. ModelCache.Threads is any interleaving of the critical
-- sections, with the unloads outside the lock.
--
-- Checkpoint, Checkpoint.Anchor, Checkpoint.Witness and Checkpoint.Store model
-- src/control/protection_supervisor_checkpoint.py: the codec, the freshness anchors and witnesses
-- over the states that they keep, the signed records, the three stores, and the restorer, which
-- calls the supervisor's require_revalidation. `Fault` tells apart the exceptions that the callers
-- do. `Write` is what the file system does with a save.
--
-- RemoteAuthority and its children model src/control/remote_atomic_controller_authority.py around
-- a Lease.Store: Codec and its children the document, Calls acquire, handoff and highest_token,
-- Signing issue_grant and issue_protocol_result, Directives issue_fence_directive. `Service` is
-- what the constructor fixes, `Remote` the rest of the object and its file. RemoteAuthority.Kept
-- follows a committed request through any later calls.
--
-- Prelude holds what the modules share: Python's exceptions as values, dictionaries as association
-- lists in insertion order, str.strip tests, and times. Json is the value type of json.load and
-- json.dump.
--
-- Conventions. A finite float that is a time or a duration is a whole number of ticks of either
-- sign, with exact order, sum and difference: rounding is not modelled, so a property about times
-- is one about exact times. An int beyond the floats, which Python refuses to convert, is refused
-- where a checkpoint is made, and in any other document is read as its value. A NaN or an infinity
-- is `non_finite`. Guards of the source that test a value's Python type are discharged by the
-- types of the model. Token and sequence numbers are Python's unbounded integers. The locks and
-- file locks make each call one step, so interleavings are sequences of calls, and of critical
-- sections in ModelCache.Threads. JSON text, key order on disk and the crash of the machine in the
-- middle of a system call are not modelled. Every function is total, by structural recursion; only
-- the eviction loop runs on fuel.
--
-- Not modelled: the key classes around the cryptography library; the remaining parts of
-- src/control, src/device_fabric and src/edge (the recovery and finality journals, the intent
-- firewalls, the adaptive memory), which an extension may add; src/inference, src/voice,
-- src/research_loop and the other packages, whose code is numerical or drives devices and
-- displays; the native applications and the tools.
pub mod Checkpoint
pub mod Commit
pub mod Endpoint
pub mod Evidence
pub mod Fence
pub mod Gate
pub mod Json
pub mod Lease
pub mod Media
pub mod ModelCache
pub mod Prelude
pub mod Protection
pub mod RemoteAuthority
pub mod Supervisor
