-- ===== src/Blackboard.antt =====
-- The blackboard (src/bt/blackboard.cpp, include/bt/blackboard.hpp) and its uses in a tick
-- (src/bt/runtime.cpp).
pub mod Entries
pub mod Access
pub mod Writes
pub mod Snapshots
