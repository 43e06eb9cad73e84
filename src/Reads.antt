-- ===== src/Reads.antt =====
-- The paged and batched reads of services/Sui.ts, over the answers of a node.
pub mod Pages
pub mod Ledger
pub mod Listing
pub mod Watermarks
pub mod DigestPages
pub mod Tail
pub mod Windows
pub mod Steps
pub mod Following
pub mod Results
pub mod Objects
pub mod Batches
pub mod Batch
pub mod Requests
pub mod Honest
