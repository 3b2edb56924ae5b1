-- ===== src/Runtime/Branches/Apart.antt =====
-- What the methods of runtime/parallel.py on one branch leave as it was.
use graph_engineering.Prelude.{
  String, Bool, true, false, List, [], ◌∷◌, ◌≡◌, refl, ◌∙◌, ap, inl, inr, arith, Except, ok, raise,
  Bool-cases, select, update_where, not, if◌then◌else◌,
}
use graph_engineering.Runtime.Rows.{BranchRow, BranchNodeRow}
use graph_engineering.Runtime.State.{Run, Exec, transaction, continue}
use graph_engineering.Runtime.Branches.{is_branch}
use graph_engineering.Runtime.Branches.Ends.{in_branch}
use graph_engineering.Runtime.Branches.Attempts.{is_nested, update_nested}
use graph_engineering.Runtime.Invariant.{within}
use graph_engineering.Runtime.Transactions.{transaction_keeps}

module _ {ℓ} {A : Type ℓ} where
  -- Rows that an update does not reach.
  pub select-update_where :
      (q p : A → Bool) (f : A → A) (xs : List A)
      → ((x : A) → p x ≡ true → q x ≡ false)
      → ((x : A) → p x ≡ true → q (f x) ≡ false)
      → select q (update_where p f xs) ≡ select q xs
  unfolding select update_where
  select-update_where q p f [] before after = refl
  select-update_where q p f (x ∷ xs) before after =
      let rest = select-update_where q p f xs before after in
      elim (Bool-cases (p x)) [
        | inl e ↦ rw e (rw (before x e) (rw (after x e) rest))
        | inr e ↦ rw e (ap (λ ys. if q x then x ∷ ys else ys) rest)
      ]

-- The rows of other branches.
abbrev pub other_branches : String → String → Run → List BranchRow
other_branches container branch r = select (λ b. not (is_branch container branch b)) r.branches

abbrev pub other_nodes : String → String → Run → List BranchNodeRow
other_nodes container branch r = select (λ n. not (in_branch container branch n)) r.branch_nodes

-- `s` differs from `r` in one branch and in what all branches share, with the budget kept.
pub record Apart (container branch : String) (r s : Run) : Type 0 where
  pub same_status : s.status ≡ r.status
  pub same_barrier : s.barrier ≡ r.barrier
  pub same_reason : s.terminal_reason ≡ r.terminal_reason
  pub same_error : s.error ≡ r.error
  pub same_nodes : s.nodes ≡ r.nodes
  pub same_attempts : s.attempts ≡ r.attempts
  pub same_edges : s.edges ≡ r.edges
  pub same_others : other_branches container branch s ≡ other_branches container branch r
  pub same_rows : other_nodes container branch s ≡ other_nodes container branch r
  pub keeps_budget : within r.budget ≡ true → within s.budget ≡ true

module _ (container branch : String) where
  nested_in :
      (node_id : String) (n : BranchNodeRow)
      → is_nested container branch node_id n ≡ true
      → in_branch container branch n ≡ true
  nested_in node_id n e = ground arith

  pub others_kept :
      (f : BranchRow → BranchRow) (bs : List BranchRow)
      → ((b : BranchRow) → is_branch container branch (f b) ≡ is_branch container branch b)
      → select
          (λ b. not (is_branch container branch b))
          (update_where (is_branch container branch) f bs)
        ≡ select (λ b. not (is_branch container branch b)) bs
  others_kept f bs same =
      select-update_where _ _ f bs (λ b e. ap not e) (λ b e. ap not (same b ∙ e))

  pub rows_kept :
      (node_id : String) (f : BranchNodeRow → BranchNodeRow) (ns : List BranchNodeRow)
      → ((n : BranchNodeRow) → in_branch container branch (f n) ≡ in_branch container branch n)
      → select
          (λ n. not (in_branch container branch n))
          (update_nested container branch node_id f ns)
        ≡ select (λ n. not (in_branch container branch n)) ns
  unfolding update_nested
  rows_kept node_id f ns same =
      select-update_where _ _ f ns (λ n e. ap not (nested_in node_id n e))
        (λ n e. ap not (same n ∙ nested_in node_id n e))

  abbrev Here : Run → Run → Type 0
  Here = Apart container branch

  pub apart_refl : (r : Run) → Here r r
  apart_refl r = record {
    same_status = refl;
    same_barrier = refl;
    same_reason = refl;
    same_error = refl;
    same_nodes = refl;
    same_attempts = refl;
    same_edges = refl;
    same_others = refl;
    same_rows = refl;
    keeps_budget = λ h. h;
  }

  pub apart_trans : {r s t : Run} → Here r s → Here s t → Here r t
  apart_trans h k = record {
    same_status = k.same_status ∙ h.same_status;
    same_barrier = k.same_barrier ∙ h.same_barrier;
    same_reason = k.same_reason ∙ h.same_reason;
    same_error = k.same_error ∙ h.same_error;
    same_nodes = k.same_nodes ∙ h.same_nodes;
    same_attempts = k.same_attempts ∙ h.same_attempts;
    same_edges = k.same_edges ∙ h.same_edges;
    same_others = k.same_others ∙ h.same_others;
    same_rows = k.same_rows ∙ h.same_rows;
    keeps_budget = λ b. k.keeps_budget (h.keeps_budget b);
  }

  pub transaction_apart :
      {A : Type 0} (body : Run → Except (A × Run)) (r : Run)
      → ((a : A) (s : Run) → body r ≡ ok (a, s) → Here r s)
      → Here r (transaction body r).1
  transaction_apart body r h = transaction_keeps body r (Here r) (apart_refl r) h

  pub continue_apart :
      {A B : Type 0} (result : Except A) {r s : Run} (f : A → Exec B)
      → Here r s
      → ((a : A) → Here s (f a s).1)
      → Here r (continue result s f).1
  continue_apart (ok a) f h k = apart_trans h (k a)
  continue_apart (raise e) f h k = h

  -- `s` is `r` but for the tables of branches, and for what all branches share.
  pub apart_of :
      (r s : Run)
      → s ≡ record r {
        budget = s.budget;
        handles = s.handles;
        branches = s.branches;
        branch_nodes = s.branch_nodes;
        branch_attempts = s.branch_attempts;
        branch_edges = s.branch_edges;
        artifacts = s.artifacts;
        metadata = s.metadata;
        checkpoints = s.checkpoints;
        outbox = s.outbox;
      }
      → other_branches container branch s ≡ other_branches container branch r
      → other_nodes container branch s ≡ other_nodes container branch r
      → (within r.budget ≡ true → within s.budget ≡ true)
      → Here r s
  apart_of r s e others rows budget = record {
    same_status = ap (λ x. x.status) e;
    same_barrier = ap (λ x. x.barrier) e;
    same_reason = ap (λ x. x.terminal_reason) e;
    same_error = ap (λ x. x.error) e;
    same_nodes = ap (λ x. x.nodes) e;
    same_attempts = ap (λ x. x.attempts) e;
    same_edges = ap (λ x. x.edges) e;
    same_others = others;
    same_rows = rows;
    keeps_budget = budget;
  }
