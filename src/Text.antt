-- ===== src/Text.antt =====
-- What the programs use of Go's `strconv` and `strings`, on texts as lists of bytes.
pub mod Decimal
pub mod Split
pub mod Trim
