-- ===== src/Sql/Wp.antt =====
-- Conditions on what a program leaves in the tables, whatever statements fail: a program is read
-- backwards, one rule for each way to build it.
mod Base
mod Steps
unfoldable pub use Base.*
pub use Steps.*
