-- ===== src/Runtime/Transactions.antt =====
-- Lemmas on the transactions of StateStore.
use graph_engineering.Prelude.{◌≡◌, refl, arith, Except, ok, raise, Exception}
use graph_engineering.Runtime.State.{Run, Body, settle, transaction}

module _ {A : Type 0} (body : Body A) (r : Run) where
  settle_keeps :
      (P : Run → Type 0) (result : Except (A × Run))
      → P r
      → ((a : A) (r' : Run) → result ≡ ok (a, r') → P r')
      → P (settle result r).1
  settle_keeps P (ok (a, r')) h k = k a r' refl
  settle_keeps P (raise e) h k = h

  -- A predicate that the state has, and that every commit keeps, holds afterwards.
  pub transaction_keeps :
      (P : Run → Type 0)
      → P r
      → ((a : A) (r' : Run) → body r ≡ ok (a, r') → P r')
      → P (transaction body r).1
  unfolding transaction
  transaction_keeps P h k = settle_keeps P (body r) h k

  pub transaction_returns :
      {a : A} → (transaction body r).0 ≡ ok a → body r ≡ ok (a, (transaction body r).1)
  unfolding transaction
  transaction_returns h = ground arith

  pub transaction_raises :
      {e : Exception} → (transaction body r).0 ≡ raise e → (transaction body r).1 ≡ r
  unfolding transaction
  transaction_raises h = ground arith
