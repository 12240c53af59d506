-- ===== src/Romaji.antt =====
-- tsf/Ohagey/RomajiKana.h and RomajiKana.cpp: romaji to kana, whole and key by key.
pub mod Rules
pub mod Kana
pub mod Buffer
pub mod Rebuild
pub mod Table
pub mod Output
pub mod Prefix
pub mod Rounds
pub mod Pending
pub mod State
mod Tests
