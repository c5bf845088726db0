-- ===== src/Util.antt =====
-- util/: Clamp, TokenizeCommand and the actor version text.
pub mod Comparable
pub mod Tokenizer
pub mod Version
pub mod Examples
