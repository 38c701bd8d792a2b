-- ===== src/Text.antt =====
-- Bytes and strings of the runtime.
pub mod Ctype
pub mod Case
pub mod Search
pub mod Trim
pub mod Ascii
