-- ===== src/Lib.antt =====
-- The Tenstorrent DRA framework: a Kubernetes driver that offers Tenstorrent accelerators as dynamic
-- resources, places multi-rank workloads on connected devices, and prepares, watches and releases the
-- devices on each node. The node agent turns its inventory into ResourceSlices (Dra) and a NodeTopology;
-- the controller merges the nodes' observations into one fabric graph (Topology), admits workloads
-- (Controller) and searches a placement on the graph (Placement); the agent's lifecycle manager
-- (Lifecycle) prepares the allocated devices for the kubelet and keeps unsafe devices in quarantine.
--
-- Base: what the parts share: Go's equality, maps as association lists, signed and 64-bit integers,
--   sorting, key sets and texts.
-- Api: src/internal/api/types.go, and of Kubernetes the pod, its template and the claim as far as the
--   controller reads or writes them.
-- Device: src/internal/device/model.go; Device/Name: `DRAName` of normalize.go and `ChildName` of
--   src/internal/placement/placement.go, with the first six bytes of SHA-256 as a parameter; Numbers and
--   Normalize the parsers and tests of normalize.go, Snapshot its `normalize` and `BuildSnapshot`.
-- Dra: src/internal/dra/deviceclass.go; Dra/Slices: resourceslice.go.
-- Topology: src/internal/topology/topology.go, `BuildFabric` and `WorkloadGeneration`, with the digest of
--   the endpoints as a parameter.
-- Placement: src/internal/placement/placement.go. Model holds devices, reservations and candidates,
--   Connected the check of the selected devices, Search the backtracking of `SolveContext`. The
--   context is a function that says at each poll whether it is done; the closures of the source share
--   the record `Search`.
-- Controller: src/internal/controller. Validation is validation.go; World the controller's state and the
--   calls of the API server; Children the objects of children.go and Apply the calls on them; Status
--   the phases and the status writes of controller.go (Status/Started: when a rank runs), Reserve its `reservations`, Reconcile its
--   `reconcileWorkload`, Queue its `reconcileFabric` and a turn of the work queue. Sends says what the
--   calls of a step have in common.
-- Lifecycle: src/internal/lifecycle. State has the manager, its file and the calls of the world; Janitor
--   quarantine, sanitizing, safety and audit of janitor.go; Observe its `observeLocked`, `Monitor` and
--   `InventoryFailed`; Cdi cdi.go; Claims and Prepare the preparation of claims in manager.go
--   (Prepare/Batches the call on several claims), Unprepare their release; Node the taint and condition
--   of node.go and watchdog.go; Health the report of health.go. Startup and Recovery are recovery.go and the
--   end of `NewManager`. Frame has the steps that leave the claims alone.
--
-- The file claims.json holds the state itself: reading back what encoding/json wrote is taken to give the
-- same value, so that nothing is said of field names, omitted fields and the text of times.
-- A step of the lifecycle manager maps the manager to an answer and the manager after it. The world
-- (clock, file writes, resets, inventory) is the record `Env`: a function of the number of calls made so
-- far, so that every sequence of successes and failures is covered. A durable write is complete, lost,
-- or in place with an error. The manager's mutex and the file lock make one call of the kubelet one
-- step; steps of other processes show as changes of the file between calls. Times count nanoseconds;
-- a difference of times beyond the range of time.Duration is not cut off.
-- Maps are association lists, so one order of iteration stands for the one that Go leaves open. An
-- association list that a Go map stands for holds each key once where a theorem needs it, and says so.
-- `walk` in Placement/Connected runs on fuel for the number of selected devices, and `cut_slices` in
-- Dra/Slices for the number of devices; the theorems on them show that this is enough.
--
-- Not modelled: the command and its loops (src/cmd), metrics and health endpoints
-- (src/internal/observability), discovery from sysfs and the kernel driver and the provenance of a
-- device's fields (src/internal/device), the lock file and the checks of the configuration of the lifecycle
-- manager, `Run` and the handlers of the informers in src/internal/controller, and `PublishNode`,
-- `ConfirmResourcePublication` and the reads and writes around lifecycle/node.go, which are calls of the
-- Kubernetes API.
pub mod Base
pub mod Api
pub mod Dra
pub mod Placement
pub mod Topology
pub mod Device
pub mod Controller
pub mod Lifecycle
mod Tests
