-- ===== src/Lifecycle.antt =====
-- internal/lifecycle: the node agent's claims, quarantine and hardware recovery.
pub mod State
pub mod Cdi
pub mod Claims
pub mod Janitor
pub mod Observe
pub mod Prepare
pub mod Unprepare
pub mod Frame
pub mod Node
pub mod Health
pub mod Startup
pub mod Recovery
