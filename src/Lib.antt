-- ===== src/Lib.antt =====
-- FastSTDB, a store for time series: its core logic as executable definitions, and theorems on them.
--
-- A sample is a timestamp and a double. The samples of a series are gathered in blocks: timestamps
-- and values are compressed in chunks of sixteen, and what does not fill a chunk is a plain tail.
-- The parts below follow faststdb/storage/compression.h and faststdb/storage/compression.cc; a
-- query reads samples through a chain of nodes, one of which is the limiter.
--
-- Common: names of the library, Boolean tests, lists over the native numbers, bit operations.
-- Compression/Stream: the memory region that `VByteStreamWriter` fills and `VByteStreamReader`
--   consumes. A writer keeps the bytes before `pos_` and the count of those up to `end_`. A reader
--   keeps the bytes from `pos_` on. LOG(FATAL) of a reader is `none`.
-- Compression/Base128: `Base128Int::put` and `get`, seven bits to a byte.
-- Compression/VByte: `VByteStreamWriter` (`encode`, `shortcut`, `tput`, `put`, `commit`) and
--   `VByteStreamReader::next`, values in pairs behind a control byte.
-- Compression/DeltaDelta: `DeltaDeltaStreamWriter` and `DeltaDeltaStreamReader`, on the two above.
-- Compression/Predictor: `DfcmPredictor`. Compression/Fcm: `FcmStreamWriter` and `FcmStreamReader`.
--   Both work on the bit patterns of doubles, which are 64-bit numbers.
-- Compression/Block: `DataBlockWriter` and `DataBlockReader`, a header, the chunks and the tail, on
--   one stream that both codecs share. The pointers into the header are positions. Its children
--   describe the bytes of a block (Layout), the invariant of a writer (Invariant, Open), the branches
--   of `put` (Put, Flush, Tail, History), `commit` (Commit), the reader (Read, RoundTrip), and the
--   blocks that calls of `put` lead to (Puts, Count).
-- Compression/Chunks: a chunk from the writer of each codec to its reader.
-- Compression/Tests: the theorems at concrete streams.
-- Query/Limiter: `Limiter` of faststdb/query/query_processing/limiter.cc, which passes samples to a
--   node of any type, with `parse_limit_offset` of faststdb/query/queryparser.cc and the end of
--   `parse_processing_topology`, which attaches a limiter or not. With functions in `apply` the
--   query processor takes another root, and so they are left out. The property tree and the node
--   behind are parameters. Query/Tests has concrete runs.
--
-- Storage/Iovec: `IOVecBlock` of faststdb/storage/volume.cc, 4096 bytes in four components. Its
--   children state that the operations work on the bytes of the components in order (Shape, Append,
--   Put, Read).
-- Storage/VectorStream and Storage/VectorReader: `IOVecVByteStreamWriter` and
--   `IOVecVByteStreamReader`, the variable byte codec over such a block.
-- Storage/Volume: `Volume` of the same file, the bytes of its file with a write position.
--   Storage/MetaVolume: `MetaVolume`, one record for each volume, and the calls for its registry.
-- Storage/MetaStorage: `MetaVolumeStore` of faststdb/storage/meta_storage.cc, that registry: a record
--   that is added is there at once, an update waits in a queue for a thread. Its children follow the
--   waiting updates (Updates), each operation (Sync), and all orders of steps (Runs).
-- Storage/FileStorage: `FileStorage` of faststdb/storage/block_store.cc; Open has its constructor and
--   Fixed and Expandable have its two kinds. An address is the generation of a volume with the
--   number of a block. Live, Steps, Fixed/Aligned, Fixed/Append and Fixed/Cycle lead to Fixed/Contract, and
--   Expandable/Grow and Expandable/Keep to Expandable/Promise.
-- Storage/MemStore and Storage/BlockCache: `MemStore` and `BlockCache` of the same file.
-- Storage/Tests, StoreTests, FileTests and MemTests: the theorems at concrete states.
-- Common/Crc: CRC-32C byte by byte, of faststdb/common/crc32c.cc. The checksums of Storage take the
--   implementation as a parameter, since that file is a copy of a library.
--
-- A shared stream, which the source's writers hold by reference, is an argument and a result of
-- each operation. Machine integers wrap where the source lets them: `% 2 ^ 64` and `% 2 ^ 32` are
-- written out. No loop needs fuel: each one counts down bits, bytes or the samples of a chunk.
-- A block is below 64 kB, since its counts of chunks and of plain samples have two bytes each; the
-- store's blocks have 4 kB. Assertions are taken to be compiled out, except where a definition's
-- comment says otherwise.
--
-- The content of a file and what the operating system answers to a write are arguments, so are the
-- random numbers of the block cache and the bytes that a buffer held before. A cache has 1 to 30
-- bits, since its shifts and ints are undefined outside. Theorems on volumes hold up to 2 ^ 20
-- blocks, since the source computes offsets with 32 bits.
--
-- Not modelled: the block writer and reader over vectored blocks, the tree, the input log, the
-- operators, the index, the other query nodes, the rest of the query parser and plan, and the
-- servers. Files, sqlite, threads beside that of the registry, and third-party code are outside.
pub mod Common
pub mod Compression
pub mod Query
pub mod Storage
