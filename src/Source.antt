-- ===== src/Source.antt =====
-- How compile.c reads its source text: words, lines, escaped strings, names and literals.
-- A pointer into the source is the list of the bytes from there to the end.
pub mod Scanner
pub mod Escape
pub mod Names
pub mod Literal
