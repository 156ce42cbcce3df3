-- ===== src/Tests.antt =====
-- Runs of the model on small inputs: the theorems applied where their hypotheses hold.
pub mod Data
pub mod Builder
pub mod Parts
pub mod Archive
pub mod Package
pub mod Content
pub mod Wads
