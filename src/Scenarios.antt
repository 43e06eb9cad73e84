-- ===== src/Scenarios.antt =====
-- Concrete stores, journals and nodes, and runs of the models on them.
mod Stores
mod Nodes
mod Runs
mod Queues
mod Resubmits
mod Folds
mod Readings
mod Batched
mod Values
mod Builds
mod Journals
