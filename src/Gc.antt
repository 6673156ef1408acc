-- ===== src/Gc.antt =====
-- The garbage collector of the Lisp heap (src/gc.cpp, include/muslisp/gc.hpp).
pub mod Heap
pub mod Marking
pub mod Sweeping
pub mod Collector
pub mod Collection
pub mod Names
pub mod Steps
pub mod Ticks
