-- ===== src/SplitDns.antt =====
-- application/split-dns/src: the DNS router, its response cache and its configuration.
pub mod Message
pub mod Ttl
pub mod Cache
pub mod Config
mod Tests
pub mod Router
