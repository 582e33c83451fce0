-- ===== src/Tokenizer.antt =====
-- The byte-level BPE tokenizer, src/tokenizer/tokenizer.cpp. A string is its bytes.
pub mod Symbols
pub mod Classes
pub mod Split
pub mod Vocab
pub mod Merge
pub mod Codec
pub mod Loaded
pub mod Template
mod Tests
