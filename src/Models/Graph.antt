-- ===== src/Models/Graph.antt =====
-- models/graph.py: the execution graph and its static validation. The nodes of a subgraph are
-- written without definitions of their own: a nested container is refused by its node type.
use graph_engineering.Prelude.{
  ℕ, String, Bool, true, false, not, ◌&&◌, ◌||◌, Option, none, some, List, [], ◌∷◌, map, Checked,
  ok, raise, require, value_error, assertion_error, ◌>>◌, ◌==◌, is_some, if◌then◌else◌, elem,
  distinct, find_first, any,
}
use graph_engineering.Models.Common.{Budget}

pub data NodeType : Type 0 where
  agent command verifier router delivery parallel subgraph join : NodeType

pub data RouteField : Type 0 where
  result_status result_retryable attempt_number : RouteField

pub data RouteOperator : Type 0 where
  equals not_equals in_ not_in : RouteOperator

-- A Python int, with `negsuc n` for -(n + 1).
pub data ℤ : Type 0 where
  pos : ℕ → ℤ
  negsuc : ℕ → ℤ

-- str | int | bool
pub data RouteScalar : Type 0 where
  text : String → RouteScalar
  int : ℤ → RouteScalar
  bool : Bool → RouteScalar

pub data RouteValue : Type 0 where
  scalar : RouteScalar → RouteValue
  list : List RouteScalar → RouteValue

pub record RouteCondition : Type 0 where
  pub field : RouteField
  pub operator : RouteOperator
  pub value : RouteValue

check_operator : RouteOperator → RouteValue → Checked
check_operator in_ (scalar v) = raise (value_error "operator in requires a list value")
check_operator not_in (scalar v) = raise (value_error "operator not_in requires a list value")
check_operator equals (list vs) = raise (value_error "operator equals requires a scalar value")
check_operator not_equals (list vs) =
    raise (value_error "operator not_equals requires a scalar value")
check_operator _ (list []) = raise (value_error "route condition list value must not be empty")
check_operator _ _ = ok tt

pub operator_matches_value : RouteCondition → Checked
unfolding check_operator
operator_matches_value c = check_operator c.operator c.value

pub record Edge : Type 0 where
  pub from_node : String
  pub to_node : String
  pub condition : Option RouteCondition
  pub max_iterations : Option ℕ

pub record JoinSpec : Type 0 where
  pub parallel_node_id : String

-- The keys of `config` that the runtime reads.
pub record Config : Type 0 where
  pub external : Bool
  pub verifier_id : Option String
  pub verifier_revision : Option ℕ

-- A node inside a subgraph.
pub record NestedNode : Type 0 where
  pub node_id : String
  pub node_type : NodeType
  pub config : Config
  pub budget : Option Budget

pub record Subgraph : Type 0 where
  pub subgraph_id : String
  pub entry_node_id : String
  pub nodes : List NestedNode
  pub edges : List Edge

pub record ParallelBranch : Type 0 where
  pub branch_id : String
  pub subgraph : Subgraph

pub record ParallelSpec : Type 0 where
  pub max_concurrency : ℕ
  pub branches : List ParallelBranch

pub record Node : Type 0 where
  pub node_id : String
  pub node_type : NodeType
  pub config : Config
  pub budget : Option Budget
  pub subgraph : Option Subgraph
  pub parallel : Option ParallelSpec
  pub join : Option JoinSpec

pub record ExecutionGraph : Type 0 where
  pub graph_id : String
  pub contract_id : String
  pub contract_revision : ℕ
  pub entry_node_id : String
  pub nodes : List Node
  pub edges : List Edge

-- Which of the three definitions the node type asks for, and that no other is given.
check_definitions : NodeType → Bool → Bool → Bool → Checked
check_definitions subgraph s p j = do
  require s (value_error "subgraph node requires its typed definition")
  require (not p) (value_error "parallel definition does not match node_type")
  require (not j) (value_error "join definition does not match node_type")
check_definitions parallel s p j = do
  require p (value_error "parallel node requires its typed definition")
  require (not s) (value_error "subgraph definition does not match node_type")
  require (not j) (value_error "join definition does not match node_type")
check_definitions join s p j = do
  require j (value_error "join node requires its typed definition")
  require (not s) (value_error "subgraph definition does not match node_type")
  require (not p) (value_error "parallel definition does not match node_type")
check_definitions _ s p j =
    require (not (s || p || j))
      (value_error "serial node kinds cannot carry subgraph, parallel, or join definitions")

unfoldable pub typed_definition_matches_node_type : Node → Checked
unfolding check_definitions
typed_definition_matches_node_type n =
    check_definitions n.node_type (is_some n.subgraph) (is_some n.parallel) (is_some n.join)

abbrev pub is_container : NodeType → Bool
is_container parallel = true
is_container subgraph = true
is_container join = true
is_container _ = false

abbrev pub is_join : NodeType → Bool
is_join join = true
is_join _ = false

abbrev pub is_parallel : NodeType → Bool
is_parallel parallel = true
is_parallel _ = false

refuse_containers : List NestedNode → Checked
refuse_containers [] = ok tt
refuse_containers (n ∷ ns) =
    require (not (is_container n.node_type))
      (value_error "nested container nodes are outside Phase 6B")
    >> refuse_containers ns

check_nested_edges : List String → List Edge → Checked
check_nested_edges known [] = ok tt
check_nested_edges known (e ∷ es) =
    (do
      require (elem e.from_node known && elem e.to_node known)
          (value_error "subgraph edge references an unknown node")
      require (not (e.from_node == e.to_node))
          (value_error "subgraph edge must not be a self-loop"))
    >> check_nested_edges known es

pub validate_serial_topology : Subgraph → Checked
unfolding refuse_containers check_nested_edges
validate_serial_topology g = do
  let node_ids = map (λ n. n.node_id) g.nodes
  require (distinct node_ids) (value_error "subgraph node IDs must be unique")
  require (elem g.entry_node_id node_ids)
      (value_error "subgraph entry_node_id must reference an existing node")
  refuse_containers g.nodes
  check_nested_edges node_ids g.edges

pub branch_ids_are_unique : ParallelSpec → Checked
branch_ids_are_unique p =
    require (distinct (map (λ b. b.branch_id) p.branches))
      (value_error "parallel branch IDs must be unique")

unfoldable pub check_edges : List String → List Edge → Checked
check_edges known [] = ok tt
check_edges known (e ∷ es) =
    (do
      require (elem e.from_node known) (value_error "edge from_node references unknown node")
      require (elem e.to_node known) (value_error "edge to_node references unknown node")
      require (not (e.from_node == e.to_node)) (value_error "edge must not be a self-loop"))
    >> check_edges known es

-- The body of the loop over join nodes; a parallel node of that id must be there, with an edge.
unfoldable pub is_parallel_node : Option Node → Bool
is_parallel_node none = false
is_parallel_node (some source) = is_parallel source.node_type

unfoldable pub check_join : ExecutionGraph → String → Option JoinSpec → Checked
unfolding is_parallel_node
check_join g node_id none = raise assertion_error
check_join g node_id (some spec) = do
  require (is_parallel_node (find_first (λ n. n.node_id == spec.parallel_node_id) g.nodes))
      (value_error "join node must reference a parallel node")
  require (any (λ e. e.from_node == spec.parallel_node_id && e.to_node == node_id) g.edges)
      (value_error "join node requires an edge from its parallel node")

unfoldable pub check_joins : ExecutionGraph → List Node → Checked
unfolding check_join
check_joins g [] = ok tt
check_joins g (n ∷ ns) =
    (if is_join n.node_type then check_join g n.node_id n.join else ok tt) >> check_joins g ns

unfoldable pub validate_static_topology : ExecutionGraph → Checked
unfolding check_edges check_joins
validate_static_topology g = do
  let node_ids = map (λ n. n.node_id) g.nodes
  require (distinct node_ids) (value_error "node IDs must be unique")
  require (elem g.entry_node_id node_ids)
      (value_error "entry_node_id must reference an existing node")
  check_edges node_ids g.edges
  check_joins g g.nodes
