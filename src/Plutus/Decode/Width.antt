-- ===== src/Plutus/Decode/Width.antt =====
-- How wide the trees of backend/app/analysis/plutus_structure.py are: the walk goes on over the rest of
-- a list when its budget is used up.
use transaction_monitoring_s.Prelude.{ℕ, suc}
use transaction_monitoring_s.Plutus.{DatumNode, node, map_entry, truncated, Nodes, nil, cons}

abbrev pub width_all : Nodes → ℕ
width_all nil = 0
width_all (cons n ns) = suc (width_all ns)

-- The children of a node, placeholders included.
abbrev pub width : DatumNode → ℕ
width (node kind index value printed ns) = width_all ns
width (map_entry key value) = 2
width truncated = 0
