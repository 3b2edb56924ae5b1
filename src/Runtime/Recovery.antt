-- ===== src/Runtime/Recovery.antt =====
-- _recover and latest_checkpoint of engine.py.
use graph_engineering.Prelude.{
  ℕ, String, Bool, true, false, not, ◌&&◌, Option, none, some, List, [], ◌∷◌, Except, ok, require,
  required, recovery_error, runtime_invariant, ◌>>=◌, ◌>>◌, ◌==◌, is_some, is_none, length, any,
  find_first,
}
use graph_engineering.Models.Graph.{is_container}
use graph_engineering.Runtime.Rows.{NodeRow, HandleRow, TriggerState, Checkpoint, is_running}
use graph_engineering.Runtime.State.{Run, Exec, ◌>>>=◌, reads, done}
use graph_engineering.Runtime.Finish.{finish_uncertain_external_effect}

abbrev pub is_triggering : TriggerState → Bool
is_triggering TriggerState.triggering = true
is_triggering TriggerState.checkpointed = false

-- trigger_state = 'triggering' AND handle IS NULL
unfoldable pub is_uncertain : HandleRow → Bool
is_uncertain h = is_triggering h.trigger_state && is_none h.handle

-- A running node that is no container and has no handle.
unfoldable pub is_local_running : List HandleRow → NodeRow → Bool
is_local_running handles n =
    is_running n.status
    && not (is_container n.node_type)
    && not (any (λ h. h.node_id == n.node_id && is_some h.handle) handles)

unfoldable pub uncertain_or_local : Option HandleRow → Option NodeRow → Option String
uncertain_or_local (some h) n = some h.node_id
uncertain_or_local none (some n) = some n.node_id
uncertain_or_local none none = none

-- The node whose effect cannot be confirmed: (uncertain or local_running)["node_id"].
unfoldable pub unconfirmed : Run → Option String
unfolding is_uncertain is_local_running uncertain_or_local
unconfirmed r =
    uncertain_or_local (find_first is_uncertain r.handles)
      (find_first (is_local_running r.handles) r.nodes)

unfoldable pub settle_unconfirmed : Option String → ℕ → Exec Unit
settle_unconfirmed none now = done
settle_unconfirmed (some node_id) now = finish_uncertain_external_effect node_id now

unfoldable pub check_hashes : String → String → Run → Except (Unit {0})
check_hashes graph_hash contract_hash r = do
  require (r.contract_hash == contract_hash)
      (recovery_error "Contract hash mismatch; refusing recovery")
  require (r.graph_hash == graph_hash) (recovery_error "Graph hash mismatch; refusing recovery")

unfoldable pub recover : String → String → ℕ → Exec Unit
unfolding settle_unconfirmed check_hashes
recover graph_hash contract_hash now = reads (check_hashes graph_hash contract_hash) >>>= λ _ r.
    settle_unconfirmed (unconfirmed r) now r

-- ORDER BY checkpoint_id DESC LIMIT 1
newest : List Checkpoint → Option ℕ
newest [] = none
newest (c ∷ cs) = some (length cs)

pub latest_checkpoint : (String → ℕ → String) → Run → Except String
unfolding newest
latest_checkpoint refs r = do
  number ← required (newest r.checkpoints) (runtime_invariant "Run has no checkpoint")
  ok (refs r.run_id number)
