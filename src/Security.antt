-- ===== src/Security.antt =====
-- RiftNet/src/security: the cleartext HELLO and the encrypted channel.
pub mod Handshake
pub mod Encryptor
