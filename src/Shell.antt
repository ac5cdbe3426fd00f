-- ===== src/Shell.antt =====
-- TP Shell: the parser of a command line.
pub mod Strings
pub mod Command
pub mod Parsing
pub mod Execution
mod Tests
