-- ===== src/Server/Transfer.antt =====
-- Whole fields and whole responses, one byte an event: what `read_nbytes` and `send_nbytes` do over
-- a run of events on one connection.
pub mod Receive
pub mod Transmit
