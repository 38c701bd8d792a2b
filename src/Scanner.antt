-- ===== src/Scanner.antt =====
-- The scanner, elox/lib/scanner.c with elox/include/elox/scanner.h.
pub mod Token
pub mod Utf8
pub mod State
pub mod Keywords
pub mod Whitespace
pub mod Literals
pub mod Scan
pub mod Moves
pub mod Scanned
