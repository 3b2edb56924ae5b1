-- ===== src/Runtime/Recovering.antt =====
-- Theorems on _recover of engine.py.
use graph_engineering.Prelude.{
  ℕ, String, false, List, ◌∷◌, ◌++◌, All, none, ◌≡◌, ◌≢◌, refl, ap, arith, ◌⊎◌, inl, inr, Except,
  ok, raise, recovery_error, ◌==◌, eq_iff, Bool-cases,
}
use graph_engineering.Models.Graph.{is_container}
use graph_engineering.Runtime.Rows.{NodeStatus, NodeRow, HandleRow, TriggerState}
use graph_engineering.Runtime.State.{Run, continue}
use graph_engineering.Runtime.Recovery.{unconfirmed, settle_unconfirmed, check_hashes, recover}

hashes_differ :
    (graph_hash contract_hash : String) (r : Run)
    → (r.contract_hash ≢ contract_hash) ⊎ (r.graph_hash ≢ graph_hash)
    → (text : String) × (check_hashes graph_hash contract_hash r ≡ raise (recovery_error text))
unfolding check_hashes
hashes_differ graph_hash contract_hash r h = elim (Bool-cases (r.contract_hash == contract_hash)) [
  | inr other ↦ ("Contract hash mismatch; refusing recovery", rw other refl)
  | inl same ↦ elim (Bool-cases (r.graph_hash == graph_hash)) [
    | inr other' ↦ ("Graph hash mismatch; refusing recovery", rw (same, other') refl)
    | inl same' ↦
        absurd
          (ground (arith, eq_iff r.contract_hash contract_hash, eq_iff r.graph_hash graph_hash))
  ]
]

-- A recovery with another contract or another graph than the run was created with raises RecoveryError
-- and writes nothing.
pub recover_refuses :
    (graph_hash contract_hash : String) (now : ℕ) (r : Run)
    → (r.contract_hash ≢ contract_hash) ⊎ (r.graph_hash ≢ graph_hash)
    → (text : String) × (recover graph_hash contract_hash now r ≡ (raise (recovery_error text), r))
unfolding recover
recover_refuses graph_hash contract_hash now r h =
    let (text, raised) = hashes_differ graph_hash contract_hash r h in
    (
      text,
      ap {A = Except (Unit {0})} {B = Except (Unit {0}) × Run}
          (λ c. continue c r (λ _ s. settle_unconfirmed (unconfirmed s) now s)) raised,
    )

same_hashes : (r : Run) → check_hashes r.graph_hash r.contract_hash r ≡ ok tt
unfolding check_hashes
same_hashes r =
    rw ((eq_iff r.contract_hash r.contract_hash).1 refl, (eq_iff r.graph_hash r.graph_hash).1 refl)
      refl

-- An external trigger without a handle.
abbrev pub Triggered : Run → Type 0
Triggered r =
    (before : List HandleRow) × (h : HandleRow) × (after : List HandleRow) × (r.handles
      ≡ before ++ h ∷ after)
    × (h.trigger_state ≡ TriggerState.triggering)
    × (h.handle ≡ none)

-- A node that is running, is no container, and for which no row has a handle.
abbrev pub LeftRunning : Run → Type 0
LeftRunning r =
    (before : List NodeRow) × (n : NodeRow) × (after : List NodeRow) × (r.nodes
      ≡ before ++ n ∷ after)
    × (n.status ≡ NodeStatus.running)
    × (is_container n.node_type ≡ false)
    × All (λ (h : HandleRow). (h.node_id ≢ n.node_id) ⊎ (h.handle ≡ none)) r.handles
