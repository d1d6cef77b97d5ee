-- ===== src/Handler.antt =====
-- httpsrv/handler: how a request is answered, from the cache or by the backend.
pub mod Buffers
pub mod Headers
pub mod Range
pub mod Cached
pub mod World
pub mod Proxy
pub mod Serve
mod Tests
