-- ===== src/Tx.antt =====
-- services/Tx.ts: the lifecycle of a transaction. Build and Signing: from a recipe to signed bytes. Bytes: what
-- the signed bytes pin. Network: the node, the journal and the failures. The others are the operations.
pub mod Bytes
pub mod Network
pub mod Evidence
pub mod Wording
pub mod Submit
pub mod Resubmit
pub mod Build
pub mod Signing
pub mod Ends
pub mod Recover
