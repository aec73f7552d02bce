-- ===== src/Shared.antt =====
-- The code of shared/, which client and server both link.
pub mod AudioFormat
pub mod Pool
pub mod RingBuffer
pub mod Messages
pub mod Fec
pub mod Clock
pub mod Pacer
pub mod Result
pub mod Float
pub mod Transport
pub mod Multipath
pub mod Congestion
pub mod CodecConfig
