-- ===== src/Strip.antt =====
-- packages/core/src/strip.ts: comments and literals of an SQL text. The index of the code is the
-- text that is left; the character before it is handed along. The loops run on fuel, one unit for
-- each character at most.
pub mod Spans
pub mod Scan
pub mod Trim
pub mod Suffix
pub mod Pieces
mod Tests
