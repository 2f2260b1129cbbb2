-- ===== src/Std.antt =====
-- What the packages use of Go's standard library: text, decimal numbers and network addresses.
-- A text that the code takes apart is the list of its code points.
pub mod Strings
pub mod Strconv
pub mod Net
