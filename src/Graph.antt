-- ===== src/Graph.antt =====
-- graph/: edges between nodes and their topological order. Node ids are UUIDs, as numbers: `str` of a
-- UUID has a fixed length, so the order of the strings is that of the numbers.
use comfy_ui_ng.Prelude.{ℕ, Text}
pub mod Topology

-- `Edge` of graph/types.py
pub record Edge : Type 0 where
  pub source_node_id : ℕ
  pub source_port : Text
  pub target_node_id : ℕ
  pub target_port : Text
