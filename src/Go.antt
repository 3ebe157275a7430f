-- ===== src/Go.antt =====
-- What the program uses of Go's standard library: strconv, strings and net/url.
pub mod Base64
pub mod Decimal
pub mod Strings
pub mod Url
pub mod Spaces
