-- ===== src/Rpleth.antt =====
-- The Rpleth protocol of modules/rpleth: the ring that collects a client's bytes, the packets, and the
-- server that answers them.
pub mod Ring
pub mod Protocol
pub mod Server
