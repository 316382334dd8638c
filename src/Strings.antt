-- ===== src/Strings.antt =====
-- src/xtokens.h and src/xpath.h: the helpers for strings. A string is the list of its characters'
-- codes.
pub mod Tokens
pub mod Paths
pub mod Equal
mod Examples
