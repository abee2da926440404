-- ===== src/Tests.antt =====
-- Concrete runs of the components.
mod Placement
mod Topology
mod Lifecycle
mod Admission
mod Controller
mod Recovery
mod Device
