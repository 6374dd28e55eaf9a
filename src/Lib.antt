-- ===== src/Lib.antt =====
-- Verification of the Mnemosyne inference manager: the residency coordinators of a CUDA node and of a
-- Mac, the Fleet gateway, the streaming usage parser and the usage outbox.
--
-- The program. A node runs one model at a time. On a CUDA node `cuda_residency.py` decides when the
-- resident model is switched and which requests hold a permit; on a Mac
-- `macos/service/src/mnemosyne_macos/coordinator.py` does. The Fleet gateway
-- (`fleet/src/mnemosyne_fleet`) polls the snapshots that nodes publish, checks them (`protocol.py`),
-- keeps the newest of each node (`registry.py`), and gives each request a node (`scheduler.py`).
--
-- Residency (`cuda_residency.py`). `Residency/Types` has the fields of `CudaResidencyCoordinator` as
-- the record `Coordinator`, with the pending futures, the unreleased leases and the stages of the
-- driver task and of a maintenance call. `Residency/Locked` has the `_…_locked` helpers,
-- `Residency/Admission` `acquire`, `acquire_current`, `_cancel_waiter`, `release` and `reconfigure`,
-- `Residency/Driver` `_drive` with its transitions, `Residency/Maintenance` `unload`, `evict_if_idle`
-- and `shutdown`. Each critical section under the condition is one function of the state; a task is
-- cut where it waits. `Residency/System` makes the tasks one transition system: an event names the
-- task that runs next and what an engine callback or a deadline answers, so a list of events is an
-- interleaving. An event that is not possible changes nothing; the driver may run a round at any
-- time, which covers every wake-up of the condition.
--
-- `Leasing` has what the two coordinators share: leases and futures by the epochs of their permits.
--
-- Macos (`macos/service/src/mnemosyne_macos`). `Macos/Targets` has targets, engine snapshots and
-- capacities (`models.py`, `fleet_protocol.py`), `Macos/Types` the fields of `ResidencyCoordinator`,
-- `Macos/Locked` the `_…_locked` helpers, `Macos/Admission` `acquire`, `_cancel_waiter` and
-- `ModelLease.release`, `Macos/Driver` `_drive` and `_transition`, `Macos/Barrier` the maintenance calls
-- (`unload`, `abort`, `run_empty_maintenance`, `reconcile`, `initialize`, `evict_if_idle`), and
-- `Macos/Audit` `audit` and `shutdown`. `Macos/System` makes the tasks one transition system, in which
-- any number of maintenance calls and audits may overlap, as no lock of the program keeps them apart.
-- `Macos/Counting` to `Macos/Runs` are about the count of permits; `Macos/Fence` to `Macos/FenceRuns` are
-- about the runs in which no two maintenance calls overlap, which `is_calm_run` decides; `Macos/Lock`
-- to `Macos/LockRuns` are about the operation lock in every run, and about the one task that works on
-- the engines without it: the driver, when it cleans up after a failed transition.
-- `Macos/Outbox` has the tables of `usage_store.py`, and `Macos/Delivery` the writer of the ledger and
-- `flush_once` (`usage_delivery.py`), cut between its calls, so that records, prunes and crashes come
-- between. `Macos/Accounts` has an abstract account of what may become of a usage event.
--
-- Fleet. `Fleet/Protocol` has the models of a snapshot with the constraints of their fields
-- (`Fields`) and `Snapshot.validate_admission_capacity` and `validate_snapshot` (`Validate`). Every
-- refusal is a `ValueError` that the registry turns into one code, so validators are Boolean.
-- `Fleet/Registry` has `poll_once` as a function of what the HTTP client delivered.
-- `Fleet/Scheduler` has `_select` (`Select`) and `acquire`, cut at its wait, `_reserve` and `release`
-- (`Queue`). `Fleet/Store` has the table of routes. `Fleet/Proxy` has the request path (`proxy.py`):
-- the header filters (`Headers`), one attempt on a node with the ownership of its reservation
-- (`Attempt`), and the loop of `handle` (`Handle`), which calls the scheduler's `acquire` with the
-- nodes that it has tried. Between two steps of a request other tasks may leave any scheduler. The
-- completion of a route is a task of its own, cut behind the release of the reservation; the request
-- that waits for it, behind `asyncio.shield`, may be cancelled before or behind that point.
--
-- Usage (`usage_normalization.py`). `Usage/Normalize` finds and normalizes a usage block, and
-- `Usage/Endpoint` has the protocol of an endpoint and `normalize_usage`. `Usage/Framing` has the
-- loop of `StreamingUsageParser.feed`, whose fuel is the length of the buffer: each event takes two
-- bytes or more away. `Usage/Stream` has the rest of the parser.
--
-- Numbers. Python integers and monotonic times are natural numbers; times count ticks. A saturation
-- and a routing weight count units of 10⁻⁹, and loads are compared as exact fractions where the
-- program divides floats. Every other loop walks a list.
--
-- Parameters: the JSON schema validator, the hash of a deployment's canonical identity, the decoded
-- payload of a response, the decoder of a request, Python's decoding of bytes and text, the order of
-- SQLite's rows, fresh ids, and the answers of engine callbacks, engine adapters and of the HTTP client.
--
-- Not modelled: HTTP surfaces, the other SQL, process supervision, the rest of the macOS service,
-- observers and read-only status projections. `lower`, `isalpha` and `int(…, 16)` are those of ASCII
-- texts.
pub mod Prelude
pub mod Fleet
pub mod Leasing
pub mod Macos
pub mod Residency
pub mod Usage
