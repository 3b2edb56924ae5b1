-- ===== src/Models/Topology.antt =====
-- Theorems on ExecutionGraph.validate_static_topology of models/graph.py.
use graph_engineering.Prelude.{
  String, Bool, true, false, ◌&&◌, Option, none, some, List, [], ◌∷◌, map, ◌≡◌, ◌≢◌, refl, arith,
  Exception, ok, require, ◌>>◌, ◌==◌, eq_iff, All, elem, distinct, find_first, any, Bool-cases, inl,
  inr,
}
use graph_engineering.Models.Graph.{
  Node, NodeType, Edge, ExecutionGraph, JoinSpec, check_edges, check_join, check_joins,
  is_parallel_node, validate_static_topology,
}

-- The graph has a node of this id: the search by id finds one.
abbrev pub Has : List Node → String → Type 0
Has nodes id = (n : Node) × (find_first (λ n. n.node_id == id) nodes ≡ some n)

elem-Has :
    (nodes : List Node) (id : String) → elem id (map (λ n. n.node_id) nodes) ≡ true → Has nodes id
unfolding find_first elem
elem-Has [] id h = absurd (ground arith)
elem-Has (n ∷ ns) id h = elim (Bool-cases (n.node_id == id)) [
  | inl found ↦ (n, rw found refl)
  | inr other ↦
      let differs : (id == n.node_id) ≡ false =
        ground (arith, eq_iff n.node_id id, eq_iff id n.node_id) in
      let later : elem id (map (λ n. n.node_id) ns) ≡ true = ground arith in
      rw other (elem-Has ns id later)
]

-- Both ends of the edge are nodes, and they differ.
abbrev pub Joins : List Node → Edge → Type 0
Joins nodes e = Has nodes e.from_node × Has nodes e.to_node × (e.from_node ≢ e.to_node)

edges_join :
    (nodes : List Node) (es : List Edge)
    → check_edges (map (λ n. n.node_id) nodes) es ≡ ok tt
    → All (Joins nodes) es
unfolding check_edges
edges_join nodes [] h = tt
edges_join nodes (e ∷ es) h =
    let source : elem e.from_node (map (λ n. n.node_id) nodes) ≡ true = ground arith in
    let target : elem e.to_node (map (λ n. n.node_id) nodes) ≡ true = ground arith in
    let apart : (e.from_node == e.to_node) ≡ false = ground arith in
    let rest : check_edges (map (λ n. n.node_id) nodes) es ≡ ok tt = ground arith in
    (
      (
        elem-Has nodes e.from_node source,
        elem-Has nodes e.to_node target,
        (λ same. ground (arith, eq_iff e.from_node e.to_node)),
      ),
      edges_join nodes es rest,
    )

-- A join node names a node that is parallel, and an edge leads from there to it.
abbrev pub JoinsParallel : ExecutionGraph → Node → Type 0
JoinsParallel g n =
    n.node_type ≡ NodeType.join
    → (spec : JoinSpec) × (source : Node) × (n.join ≡ some spec)
      × (find_first (λ n. n.node_id == spec.parallel_node_id) g.nodes ≡ some source)
      × (source.node_type ≡ NodeType.parallel)
      × (any (λ e. e.from_node == spec.parallel_node_id && e.to_node == n.node_id) g.edges ≡ true)

found_parallel :
    (found : Option Node)
    → is_parallel_node found ≡ true
    → (source : Node) × (found ≡ some source) × (source.node_type ≡ NodeType.parallel)
unfolding is_parallel_node
found_parallel none h = absurd (ground arith)
found_parallel (some source) h = (source, refl, ground arith)

both_hold :
    (a b : Bool) (e f : Exception) → (require a e >> require b f) ≡ ok tt → (a ≡ true) × (b ≡ true)
both_hold true true e f h = (refl, refl)
both_hold true false e f h = absurd (ground arith)
both_hold false b e f h = absurd (ground arith)

one_joins :
    (g : ExecutionGraph) (node_id : String) (join : Option JoinSpec)
    → check_join g node_id join ≡ ok tt
    → (spec : JoinSpec) × (source : Node) × (join ≡ some spec)
      × (find_first (λ n. n.node_id == spec.parallel_node_id) g.nodes ≡ some source)
      × (source.node_type ≡ NodeType.parallel)
      × (any (λ e. e.from_node == spec.parallel_node_id && e.to_node == node_id) g.edges ≡ true)
unfolding check_join
one_joins g node_id none h = absurd (ground arith)
one_joins g node_id (some spec) h =
    let (there, edge) =
      both_hold (is_parallel_node (find_first (λ n. n.node_id == spec.parallel_node_id) g.nodes))
        (any (λ e. e.from_node == spec.parallel_node_id && e.to_node == node_id) g.edges) _ _ h in
    let (source, found, type) =
      found_parallel (find_first (λ n. n.node_id == spec.parallel_node_id) g.nodes) there in
    (spec, source, refl, found, type, edge)

nodes_join :
    (g : ExecutionGraph) (ns : List Node) → check_joins g ns ≡ ok tt → All (JoinsParallel g) ns
unfolding check_joins
nodes_join g [] h = tt
nodes_join g (n ∷ ns) h =
    let rest : check_joins g ns ≡ ok tt = ground arith in
    (
      (λ type.
          let one : check_join g n.node_id n.join ≡ ok tt = ground arith in
          one_joins g n.node_id n.join one),
      nodes_join g ns rest,
    )

-- A graph that validate_static_topology accepts has no two nodes of one id, its entry and both ends of
-- each edge are nodes of it, no edge leads from a node to itself, and each join node names a parallel
-- node from which an edge leads to it.
pub validate_static_topology_lem :
    (g : ExecutionGraph)
    → validate_static_topology g ≡ ok tt
    → (distinct (map (λ n. n.node_id) g.nodes) ≡ true)
      × Has g.nodes g.entry_node_id
      × All (Joins g.nodes) g.edges
      × All (JoinsParallel g) g.nodes
unfolding validate_static_topology
validate_static_topology_lem g h =
    let entry : elem g.entry_node_id (map (λ n. n.node_id) g.nodes) ≡ true = ground arith in
    let edges : check_edges (map (λ n. n.node_id) g.nodes) g.edges ≡ ok tt = ground arith in
    let joins : check_joins g g.nodes ≡ ok tt = ground arith in
    (
      ground arith,
      elem-Has g.nodes g.entry_node_id entry,
      edges_join g.nodes g.edges edges,
      nodes_join g g.nodes joins,
    )
