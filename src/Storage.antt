-- ===== src/Storage.antt =====
-- Volumes and block stores, of faststdb/storage.
pub mod Status
pub mod Iovec
pub mod Volume
pub mod MetaVolume
pub mod MetaStorage
pub mod FileStorage
pub mod MemStore
pub mod BlockCache
pub mod Tests
pub mod StoreTests
pub mod FileTests
pub mod MemTests
pub mod VectorStream
pub mod VectorReader
