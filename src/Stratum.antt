-- ===== src/Stratum.antt =====
-- pool/src/stratum_sv2.rs: the server of the SV2 Mining Protocol.
pub mod Fair
pub mod Target
pub mod Protocol
pub mod State
pub mod Address
pub mod Extranonce
pub mod Job
pub mod Setup
pub mod Open
pub mod Submit
pub mod Broadcast
pub mod Connection
