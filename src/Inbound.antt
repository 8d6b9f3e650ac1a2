-- ===== src/Inbound.antt =====
-- services/edge/internal/inbound/router.go: from a called number to an agent.
pub mod Number
pub mod Scan
pub mod Route
pub mod Events
