-- ===== src/Whatap.antt =====
-- internal/whatap: frames, the cipher around the key exchange, and the blob prefix of access keys.
pub mod Frame
pub mod Cipher
pub mod Blob
pub mod KeyReply
pub mod Writing
pub mod Delivery
pub mod Tests
