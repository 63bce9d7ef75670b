-- ===== src/Server.antt =====
-- The server of src/lightcache.c: connections, their state machine and the commands.
pub mod State
pub mod Resources
pub mod Commands
pub mod Reading
pub mod Sending
pub mod Events
pub mod Loop
pub mod Start
pub mod Faults
pub mod Answer
pub mod Settings
pub mod Store
pub mod Watch
pub mod Transfer
