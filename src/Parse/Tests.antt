-- ===== src/Parse/Tests.antt =====
-- The theorems on sources/libs/brutal-glob at concrete inputs.
