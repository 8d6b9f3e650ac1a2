-- ===== src/Live.antt =====
-- services/edge/internal/live: what supervisors see of the agents and calls.
pub mod Hub
pub mod Wallboard
