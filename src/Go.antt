-- ===== src/Go.antt =====
-- What the program uses of Go's language and standard library: text, maps, the runtime's tables.
pub mod Runtime
pub mod Options
pub mod Results
pub mod Exec
pub mod Strings
pub mod Maps
pub mod Ascii
