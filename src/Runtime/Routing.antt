-- ===== src/Runtime/Routing.antt =====
-- Which edge _route_result follows, and what it counts.
use graph_engineering.Prelude.{
  ℕ, ◌+◌, String, true, false, none, some, List, [], ◌∷◌, ◌++◌, ◌≡◌, refl, arith, ◌↔◌, All,
  find_first, find_first-split, find_first-none, eq_iff, Bool-cases, inl, inr,
}
use graph_engineering.Models.Graph.{Edge}
use graph_engineering.Models.Results.{Result}
use graph_engineering.Runtime.Rows.{EdgeRow}
use graph_engineering.Runtime.Queries.{traversals, add_traversal}
use graph_engineering.Runtime.Conditions.{condition_matches, under_limit, eligible, select_edge}

-- What an edge must have to be followed from a node.
pub record CanFollow (counts : List EdgeRow) (node_id : String) (result : Result) (n : ℕ) (e : Edge)
    : Type 0 where
  pub leaves : e.from_node ≡ node_id
  pub has_room : under_limit e.max_iterations (traversals e.from_node e.to_node counts) ≡ true
  pub matches : condition_matches e.condition result n ≡ true

eligible_iff :
    (counts : List EdgeRow) (node_id : String) (result : Result) (n : ℕ) (e : Edge)
    → (eligible counts node_id result n e ≡ true) ↔ CanFollow counts node_id result n e
unfolding eligible
eligible_iff counts node_id result n e = (
  λ h. record {
    leaves = ground (arith, eq_iff e.from_node node_id);
    has_room = ground arith;
    matches = ground arith;
  },
  λ c. rw ((eq_iff e.from_node node_id).1 c.leaves, c.has_room) c.matches,
)

cannot_follow :
    (counts : List EdgeRow) (node_id : String) (result : Result) (n : ℕ) (es : List Edge)
    → All (λ e. eligible counts node_id result n e ≡ false) es
    → All (λ e. ¬ (CanFollow counts node_id result n e)) es
cannot_follow counts node_id result n [] h = tt
cannot_follow counts node_id result n (e ∷ es) (h, hs) = (
  λ c. let yes' = (eligible_iff counts node_id result n e).1 c in cc,
  cannot_follow counts node_id result n es hs,
)

-- The edge that is selected leaves the node, is under its limit and its condition matches, and no
-- edge before it in the graph does all three.
pub select_edge_first :
    (edges : List Edge) (counts : List EdgeRow) (node_id : String) (result : Result) (n : ℕ)
    (e : Edge)
    → select_edge edges counts node_id result n ≡ some e
    → (before : List Edge) × (after : List Edge) × (edges ≡ before ++ e ∷ after)
      × CanFollow counts node_id result n e
      × All (λ x. ¬ (CanFollow counts node_id result n x)) before
unfolding select_edge
select_edge_first edges counts node_id result n e h =
    let (before, after, split, hit, misses) =
      find_first-split (eligible counts node_id result n) edges h in
    (
      before,
      after,
      split,
      (eligible_iff counts node_id result n e).0 hit,
      cannot_follow counts node_id result n before misses,
    )

none-eligible :
    (counts : List EdgeRow) (node_id : String) (result : Result) (n : ℕ) (es : List Edge)
    → All (λ e. ¬ (CanFollow counts node_id result n e)) es
    → find_first (eligible counts node_id result n) es ≡ none
unfolding find_first
none-eligible counts node_id result n [] h = refl
none-eligible counts node_id result n (e ∷ es) (h, hs) =
    elim (Bool-cases (eligible counts node_id result n e)) [
      | inl t ↦ absurd (h ((eligible_iff counts node_id result n e).0 t))
      | inr t ↦ rw t (none-eligible counts node_id result n es hs)
    ]

-- No edge is selected exactly if each edge of the graph leaves another node, is at its limit or has a
-- condition that does not match.
pub select_edge-none :
    (edges : List Edge) (counts : List EdgeRow) (node_id : String) (result : Result) (n : ℕ)
    → (select_edge edges counts node_id result n ≡ none)
      ↔ All (λ x. ¬ (CanFollow counts node_id result n x)) edges
unfolding select_edge
select_edge-none edges counts node_id result n = (
  λ h.
      cannot_follow counts node_id result n edges
        (find_first-none (eligible counts node_id result n) edges h),
  none-eligible counts node_id result n edges,
)

-- Counting a traversal adds exactly one to the count that limits the edge.
pub traversals-add_traversal :
    (source target : String) (rows : List EdgeRow)
    → traversals source target (add_traversal source target rows)
      ≡ traversals source target rows + 1
unfolding traversals add_traversal find_first
traversals-add_traversal source target [] =
    ground (arith, eq_iff source source, eq_iff target target)
traversals-add_traversal source target (row ∷ rows) =
    let rest = traversals-add_traversal source target rows in ground arith
