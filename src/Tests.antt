-- ===== src/Tests.antt =====
-- Runs of the models on small inputs, and the theorems applied to them.
pub mod Nodes
pub mod Documents
pub mod Frames
pub mod Loops
pub mod Graphs
pub mod Policies
pub mod Scripts
pub mod Stores
pub mod Queries
pub mod Calls
