-- ===== src/Compiler.antt =====
-- `m4_compile` of compile.c.
pub mod State
pub mod Definitions
pub mod ControlFlow
pub mod Strings
pub mod Source
pub mod Layout
pub mod Sound
mod Tests
pub mod Binary
