-- ===== src/EventLog.antt =====
-- The canonical event log (src/bt/event_log.cpp, include/bt/event_log.hpp).
pub mod Json
pub mod Quoted
pub mod Line
pub mod State
pub mod Emit
pub mod Hash
pub mod Started
pub mod Quiet
pub mod Core
pub mod Ring
pub mod Captured
pub mod Operations
pub mod Sound
pub mod Runs
pub mod Once
pub mod Size
pub mod OneLine
