-- ===== src/Crypto.antt =====
-- pkg/crypto: the hexadecimal encodings and the Poseidon hash.
pub mod Bytes
