-- ===== src/Examples.antt =====
-- Tests and worked instances, over small stand-ins for the third-party code.
mod NodeIpc
mod Noise
mod Fixtures
mod Jobs
mod Stratum
mod Db
mod Pool
mod Rpc
