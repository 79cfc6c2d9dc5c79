-- ===== src/Firehose.antt =====
-- lib/include/mbootcore/core/protocols/firehose and lib/src/core/protocols/firehose.
pub mod Chunk
