-- ===== src/Runtime.antt =====
-- The runtime of behaviour trees (src/bt/runtime.cpp).
pub mod Status
pub mod State
pub mod Halt
pub mod Composite
pub mod Tick
pub mod Halting
pub mod Induction
pub mod Primitive
pub mod Scopes
pub mod Traces
pub mod Cleared
pub mod Sequences
pub mod Reactive
pub mod Counters
