-- ===== src/Runtime/Branches/Others.antt =====
-- _branch_step of runtime/parallel.py and the rows of the rest of the run.
use graph_engineering.Prelude.{String}
use graph_engineering.Runtime.Branches.Apart.{Apart, apart_refl, apart_trans}
use graph_engineering.Runtime.Branches.Isolation.{
  start_apart, route_apart, persist_apart, block_apart,
}
use graph_engineering.Runtime.Branches.Moves.{Moves}

pub Apart-moves : (container branch : String) → Moves container branch (Apart container branch)
Apart-moves container branch = record {
  stay = apart_refl container branch;
  both = λ h k. apart_trans container branch h k;
  starts = start_apart container branch;
  routes = route_apart container branch;
  persists = persist_apart container branch;
  blocks = block_apart container branch;
}
