-- ===== src/Text.antt =====
-- sources/libs/brutal-text: text and its encodings.
pub mod Str
pub mod Utf8
mod Tests
