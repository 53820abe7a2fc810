-- ===== src/NodeIpc.antt =====
-- pool/src/node_ipc.rs: the connection to Bitcoin Core.
pub mod Template
pub mod Build
pub mod Loop
