-- ===== src/Cipher.antt =====
-- stage/cipher: the stream cipher of the client link.
pub mod Rc4
