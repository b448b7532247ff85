-- ===== src/Sasl.antt =====
-- xmpp-sasl.c: the answers to the server's SASL mechanisms. Texts are without their NUL; NULL is `none`.
pub mod Plain
pub mod Challenge
pub mod Digest
pub mod Hex
pub mod Parsed
pub mod Nonce
mod Runs
