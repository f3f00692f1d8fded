-- ===== src/Crypto.antt =====
-- tribecrypto/ and utils/signatureutils.go: nonces, chunks and boxes round NaCl, and signatures.
pub mod SecretBox
pub mod Nonce
pub mod FileBoxer
pub mod SymmetricKey
pub mod AnonymBoxer
pub mod Signature
