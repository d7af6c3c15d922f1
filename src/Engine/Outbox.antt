-- ===== src/Engine/Outbox.antt =====
-- internal/engine/outbox.go: one pass of the worker over the notes that are due. The loop of Run, its
-- ticker and the reports to the log and to the metrics are left out.
pub mod Retries
pub mod Tests
use dev_ops_pipeline_orchest.Prelude.{
  Bool, List, Option, String, [], false, if◌then◌else◌, none, some, true, ℕ, ◌==◌, ◌∷◌, string_eq,
  nat_eq,
}
use dev_ops_pipeline_orchest.Store.Rows.{OutboxEntry, Result, cancelled, err, ok}
use dev_ops_pipeline_orchest.Store.Transactions.{Env, Platform, Store}
use dev_ops_pipeline_orchest.Store.Outbox.{deliver, due_outbox, fail_delivery}

-- What comes of handing a note to its notifier: there is none of that name, it returns an error, or
-- it takes the note.
pub data Reply : Type 0 where
  unconfigured accepted : Reply
  refused : String → Reply

-- What the world gives to one round: whether the context has ended, the reply, the clock and the disk.
pub record Round : Type 0 where
  pub ended : Bool
  pub reply : Reply
  pub env : Env

-- OutboxWorker.batch
unfoldable pub batch_size : ℕ → ℕ
batch_size n = if n == 0 then 20 else n

module _ (p : Platform) (world : OutboxEntry → Round) where
  -- the store's call of one round; `false` means that its error is dropped
  unfoldable pub settle : OutboxEntry → Store → (Result (Unit {0}) × Store) × Bool
  settle e s = elim (world e).reply [
    | unconfigured ↦ (deliver p (world e).env e.id s, false)
    | accepted ↦ (deliver p (world e).env e.id s, true)
    | refused cause ↦ (fail_delivery p (world e).env e.id cause s, true)
  ]

  abbrev pub stops : Result (Unit {0}) → Bool → Option (Result (Unit {0}))
  stops (err x) true = some (err x)
  stops r b = none

  -- the loop of Drain
  unfoldable pub drain_all : List OutboxEntry → Store → Result (Unit {0}) × Store
  drain_all [] s = (ok tt, s)
  drain_all (e ∷ es) s =
      let r = settle e s in
      let rest = drain_all es r.0.1 in
      if (world e).ended
      then (err cancelled, s)
      else elim (stops r.0.0 r.1) [ some x ↦ (x, r.0.1) | none ↦ rest ]

  -- OutboxWorker.Drain
  unfoldable pub drain : Env → ℕ → Store → Result (Unit {0}) × Store
  drain env batch s = drain_all (due_outbox env (batch_size batch) s) s
