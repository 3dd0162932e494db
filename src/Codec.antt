-- ===== src/Codec.antt =====
-- src/codec/mod.rs: what the codecs share. `encode` of a codec is a step of `Writer`; `decode` reads
-- the session's buffer and consumes a response.
pub mod Ping
pub mod Echo
pub mod Memcache
pub mod Redis
pub mod Thrift
pub mod ThriftCache
