-- ===== src/Compression.antt =====
-- The compression codecs of faststdb/storage/compression.h and compression.cc.
pub mod Stream
pub mod Base128
pub mod VByte
pub mod DeltaDelta
pub mod Predictor
pub mod Fcm
pub mod Chunks
pub mod Block
mod Tests
