-- ===== src/Srv.antt =====
-- srv.c: the DNS messages by which im_srv_lookup finds a server. A buffer is the list of its bytes; a
-- function that moves `*offset` returns the new offset. A read or a write outside the buffer is a fault.
pub mod Numbers
pub mod Name
pub mod Labels
pub mod Measured
pub mod Copied
pub mod Domain
pub mod Header
pub mod Packed
pub mod Message
pub mod Lookup
mod Runs
