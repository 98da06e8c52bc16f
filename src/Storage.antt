-- ===== src/Storage.antt =====
-- storage/ and core/include/malibu/storage/: web storage, IndexedDB, the cache API, cookies, and the
-- engine that keeps them apart by origin.
pub mod Maps
pub mod WebStorage
pub mod IndexedDb
pub mod CacheStorage
pub mod Cookies
pub mod Engine
