-- ===== src/Lisp.antt =====
-- The Lisp front end: the reader (src/reader.cpp) and the printer (src/printer.cpp).
pub mod Printer
pub mod Reader
pub mod Digits
pub mod Tokens
mod Layout
pub mod RoundTrip
pub mod Enough
pub mod Integers
