-- ===== src/Graph.antt =====
-- graph/cooccurrence-graph.ts: the graph of the nodes that occur together.
pub mod Cooccurrence
pub mod Trim
mod Removal
pub mod Bounds
pub mod Deletion
pub mod Views
