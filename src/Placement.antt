-- ===== src/Placement.antt =====
-- internal/placement/placement.go
pub mod Model
pub mod Connected
pub mod Search
