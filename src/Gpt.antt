-- ===== src/Gpt.antt =====
-- The partition-table component: lib/include/mbootcore/gpt and lib/src/gpt.
pub mod Arithmetic
pub mod Header
pub mod Entries
pub mod Parser
pub mod Ranges
pub mod Writer
pub mod Names
pub mod Manager
