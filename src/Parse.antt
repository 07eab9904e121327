-- ===== src/Parse.antt =====
-- sources/libs/brutal-parse and sources/libs/brutal-glob: scanning text.
pub mod Scan
pub mod Glob
mod Tests
