-- ===== src/Jobs.antt =====
-- pool/src/jobs.rs: coinbase transactions, the merkle branch and the CompactSize writer.
pub mod Varint
pub mod Split
pub mod Coinbase
pub mod Tdp
pub mod Merkle
