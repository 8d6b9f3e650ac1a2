-- ===== src/Dialer.antt =====
-- services/edge/internal/dialer/manual.go: outbound calls over carriers with limits.
pub mod Command
pub mod Calls
pub mod Originate
pub mod Hangup
