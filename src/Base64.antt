-- ===== src/Base64.antt =====
-- base64.c: the encoder and the decoder. A buffer is the list of its bytes; `char` is signed, as it is
-- with the compilers of the build files.
pub mod Encode
pub mod Decode
pub mod Rounds
pub mod RoundTrip
pub mod Overflow
mod Runs
