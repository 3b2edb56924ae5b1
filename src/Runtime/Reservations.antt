-- ===== src/Runtime/Reservations.antt =====
-- Theorems on reserve_cost of engine.py.
use graph_engineering.Prelude.{
  ℕ, ◌+◌, ◌≤◌, String, Bool, true, false, Option, none, some, ◌≡◌, ◌≢◌, refl, ap, ◌∙◌, sym, subst,
  arith, Except, Exception, Checked, is_none, ◌⊎◌, Except-cases, ok, raise, eq_iff, coalesce,
  find_first-snoc, inl, inr,
}
use graph_engineering.Models.Graph.{ExecutionGraph}
use graph_engineering.Models.Reports.{RunStatus}
use graph_engineering.Runtime.Rows.{BudgetRow, ReservationRow}
use graph_engineering.Runtime.State.{Run, settle, transaction, continue}
use graph_engineering.Runtime.Costs.{
  add_cost, add_run_cost, spend, reserve, reserve_new, reserve_found, find_reservation, same_node,
  node_admits, check_reservation, reserve_body, reserve_cost, flush_reserved, reserve_and_flush,
}

module _ (graph : ExecutionGraph) (reservation_id : String) (cost : ℕ) (node_id : Option String)
    (r : Run) where
  -- What a reservation that is made for the first time reads, and what it writes.
  abbrev pub Reserved : Run → Type 0
  Reserved s =
      (b : BudgetRow) × (limit : ℕ) × (r.status ≡ RunStatus.running)
      × (r.barrier ≡ none)
      × (r.budget ≡ some b)
      × (b.max_cost_units ≡ some limit)
      × (coalesce b.cost_units 0 + cost ≤ limit)
      × (node_admits graph node_id cost r ≡ ok true)
      × (s ≡ reserve reservation_id cost node_id r)

  pub reserve_new-Reserved :
      (s : Run) → reserve_new graph reservation_id cost node_id r ≡ ok (true, s) → Reserved s
  unfolding reserve_new
  reserve_new-Reserved s e = ground arith

  pub reserve_new_refuses :
      (s : Run) → reserve_new graph reservation_id cost node_id r ≡ ok (false, s) → s ≡ r
  unfolding reserve_new
  reserve_new_refuses s e = ground arith

refused :
    (r : Run) (result : Except (Bool × Run))
    → (settle result r).0 ≢ ok true
    → ((s : Run) → result ≡ ok (false, s) → s ≡ r)
    → (settle result r).1 ≡ r
refused r (ok (true, s)) h k = absurd (h refl)
refused r (ok (false, s)) h k = k s refl
refused r (raise e) h k = refl

same_node_refl : (node_id : Option String) → same_node node_id node_id ≡ true
unfolding same_node
same_node_refl none = refl
same_node_refl (some x) = (eq_iff x x).1 refl

module _ (graph : ExecutionGraph) (reservation_id : String) (cost : ℕ)
    (node_id : Option String) where
  -- The reservation is on record in this state, with the same cost and for the same node.
  abbrev pub OnRecord : Run → Type 0
  OnRecord s =
      (row : ReservationRow) × (find_reservation reservation_id s ≡ some row)
      × (row.cost_units ≡ cost)
      × (same_node row.node_id node_id ≡ true)

  reserve-OnRecord :
      (r : Run)
      → find_reservation reservation_id r ≡ none
      → OnRecord (reserve reservation_id cost node_id r)
  unfolding reserve spend
  reserve-OnRecord r h = (
    record { reservation_id = reservation_id; node_id = node_id; cost_units = cost },
    find_first-snoc _ r.reservations _ h ((eq_iff reservation_id reservation_id).1 refl),
    refl,
    same_node_refl node_id,
  )

  reserve_found-OnRecord :
      (r s : Run) (found : Option ReservationRow)
      → find_reservation reservation_id r ≡ found
      → reserve_found graph reservation_id cost node_id found r ≡ ok (true, s)
      → OnRecord s
  unfolding reserve_found
  reserve_found-OnRecord r s none h e =
      let (b, limit, a1, a2, a3, a4, a5, a6, same) =
        reserve_new-Reserved graph reservation_id cost node_id r s e in
      subst OnRecord (sym same) (reserve-OnRecord r h)
  reserve_found-OnRecord r s (some row) h e =
      let same : r ≡ s = ground arith in subst OnRecord same (row, h, ground arith, ground arith)

  OnRecord-reserve_body :
      (s : Run) → OnRecord s → reserve_body graph reservation_id cost node_id s ≡ ok (true, s)
  unfolding reserve_body reserve_found
  OnRecord-reserve_body s (row, found, cost', node') = rw found (ground arith)

  reserve_found_refuses :
      (r s : Run) (found : Option ReservationRow)
      → reserve_found graph reservation_id cost node_id found r ≡ ok (false, s)
      → s ≡ r
  unfolding reserve_found
  reserve_found_refuses r s none e = reserve_new_refuses graph reservation_id cost node_id r s e
  reserve_found_refuses r s (some row) e = absurd (ground arith)

  checked :
      (r : Run) (s : Run)
      → (reserve_cost graph reservation_id cost node_id r) ≡ (ok true, s)
      → (check_reservation reservation_id cost r ≡ ok tt)
        × (reserve_body graph reservation_id cost node_id r ≡ ok (true, s))
  unfolding reserve_cost transaction
  checked r s e = ground arith

  answered :
      (s : Run)
      → check_reservation reservation_id cost s ≡ ok tt
      → reserve_body graph reservation_id cost node_id s ≡ ok (true, s)
      → reserve_cost graph reservation_id cost node_id s ≡ (ok true, s)
  unfolding reserve_cost transaction
  answered s c b = rw (c, b) refl

  same_check :
      (r s : Run)
      → check_reservation reservation_id cost r ≡ check_reservation reservation_id cost s
  unfolding check_reservation
  same_check r s = refl

  -- reserve_cost is idempotent: a call that returns True leaves a state in which the same call
  -- returns True again and changes nothing, so a retry charges nothing.
  pub reserve_cost_again :
      (r s : Run)
      → reserve_cost graph reservation_id cost node_id r ≡ (ok true, s)
      → reserve_cost graph reservation_id cost node_id s ≡ (ok true, s)
  unfolding reserve_body
  reserve_cost_again r s e =
      let (c, body) = checked r s e in
      answered s (same_check s r ∙ c) (
        OnRecord-reserve_body s
          (reserve_found-OnRecord r s (find_reservation reservation_id r) refl body))

  -- A reservation under an identifier that is not on record yet is granted only to a run that is
  -- running with no barrier, only where the cost so far and the reserved cost together are within
  -- the limit of the run, and it adds exactly the reserved cost to the cost of the run.
  pub reserve_cost_within :
      (r s : Run)
      → find_reservation reservation_id r ≡ none
      → reserve_cost graph reservation_id cost node_id r ≡ (ok true, s)
      → (b : BudgetRow) × (limit : ℕ) × (r.status ≡ RunStatus.running)
        × (r.barrier ≡ none)
        × (r.budget ≡ some b)
        × (b.max_cost_units ≡ some limit)
        × (s.budget ≡ some (record b { cost_units = some (coalesce b.cost_units 0 + cost) }))
        × (coalesce b.cost_units 0 + cost ≤ limit)
  unfolding reserve_body reserve_found reserve spend add_run_cost add_cost
  reserve_cost_within r s fresh e =
      let (c, body) = checked r s e in
      let new : reserve_new graph reservation_id cost node_id r ≡ ok (true, s) =
        subst (λ f. reserve_found graph reservation_id cost node_id f r ≡ ok (true, s)) fresh
          body in
      let (b, limit, running, open', has_budget, has_limit, fits', admitted, written) =
        reserve_new-Reserved graph reservation_id cost node_id r s new in
      (
        b,
        limit,
        running,
        open',
        has_budget,
        has_limit,
        ap (λ x. x.budget) written ∙ ap (λ x. add_run_cost cost x) has_budget,
        fits',
      )

  reserve_body_refuses :
      (r s : Run) → reserve_body graph reservation_id cost node_id r ≡ ok (false, s) → s ≡ r
  unfolding reserve_body
  reserve_body_refuses r s = reserve_found_refuses r s (find_reservation reservation_id r)

  unwritten :
      (r : Run)
      → (reserve_cost graph reservation_id cost node_id r).0 ≢ ok true
      → (reserve_cost graph reservation_id cost node_id r).1 ≡ r
  unfolding reserve_cost transaction reserve_body reserve_found
  unwritten r h = elim (Except-cases (check_reservation reservation_id cost r)) [
    | inl (e, raised) ↦ rw raised refl
    | inr (a, passed) ↦
        let h' =
          subst
            (λ c.
              (continue c r (λ _. transaction (reserve_body graph reservation_id cost node_id))).0
              ≢ ok true)
            passed h in
        rw passed
          (refused r (reserve_body graph reservation_id cost node_id r) h' (reserve_body_refuses r))
  ]

  on_record :
      (r s : Run) → reserve_cost graph reservation_id cost node_id r ≡ (ok true, s) → OnRecord s
  unfolding reserve_body
  on_record r s e =
      let (c, body) = checked r s e in
      reserve_found-OnRecord r s (find_reservation reservation_id r) refl body

  answer_cases : (x : Except Bool) → (x ≡ ok true) ⊎ (x ≢ ok true)
  answer_cases (ok true) = inl refl
  answer_cases (ok false) = inr (λ e. cc)
  answer_cases (raise e) = inr (λ h. cc)

  flushed : (fresh : Bool) → flush_reserved fresh (ok tt) (ok true) ≡ ok true
  unfolding flush_reserved
  flushed true = refl
  flushed false = refl

  -- A call that finds the reservation on record does not come to the flush.
  unflushed :
      (again : Checked) (s : Run)
      → OnRecord s
      → reserve_cost graph reservation_id cost node_id s ≡ (ok true, s)
      → reserve_and_flush graph reservation_id cost node_id again s ≡ (ok true, s)
  unfolding reserve_and_flush flush_reserved
  unflushed again s (row, found, _, _) e = rw found (rw e refl)

  -- A reserve_cost that does not return True has written nothing, or the reservation is committed and
  -- the flush of the events that follows has raised; then the same call again returns True and writes
  -- nothing, whatever its flush would give.
  pub reserve_cost_refuses :
      (flush again : Checked) (r : Run)
      → (reserve_and_flush graph reservation_id cost node_id flush r).0 ≢ ok true
      → let s = (reserve_and_flush graph reservation_id cost node_id flush r).1 in
        (s ≡ r)
        ⊎ (((e : Exception) × (flush ≡ raise e))
            × (reserve_and_flush graph reservation_id cost node_id again s ≡ (ok true, s)))
  unfolding reserve_and_flush
  reserve_cost_refuses flush again r h =
      let (answer, s) = reserve_cost graph reservation_id cost node_id r in
      elim (answer_cases answer) [
        | inr other ↦ inl (unwritten r other)
        | inl true' ↦
            let e : reserve_cost graph reservation_id cost node_id r ≡ (ok true, s) =
              ap (λ x. (x, s)) true' in
            elim (Except-cases flush) [
              | inl (error, raised) ↦
                  inr (
                    (error, raised),
                    unflushed again s (on_record r s e) (reserve_cost_again r s e),
                  )
              | inr (u, passed) ↦
                  absurd (
                    h (
                      rw true' (rw passed (flushed (is_none (find_reservation reservation_id r))))))
            ]
      ]
