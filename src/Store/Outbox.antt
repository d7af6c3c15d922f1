-- ===== src/Store/Outbox.antt =====
-- internal/store/store.go: the outbox of notifications.
pub mod Delivery
use dev_ops_pipeline_orchest.Prelude.{
  List, Option, String, [], if◌then◌else◌, ltb, none, some, suc, zero, ℕ, ◌%◌, ◌&&◌, ◌*◌, ◌++◌, ◌+◌,
  ◌==◌, ◌^◌, ◌||◌, ◌∷◌, string_eq, nat_eq,
}
use dev_ops_pipeline_orchest.Store.Rows.{
  Duration, OutboxEntry, Result, Time, delivered, err, not_found, outbox, outbox_state, second,
}
use dev_ops_pipeline_orchest.Store.Index.{Index}
use dev_ops_pipeline_orchest.Store.Transactions.{Env, Platform, Store, Tx, add, begin, commit_tx}

abbrev pub queued : Env → ℕ → OutboxEntry → OutboxEntry
queued env id e =
    let created = if e.created_at == 0 then env.now else e.created_at in
    record e {
      id = id;
      created_at = created;
      next_attempt = if e.next_attempt == 0 then created else e.next_attempt;
    }

abbrev pub append_note : OutboxEntry → Index → Index
append_note e i = record i { outbox = i.outbox ++ e ∷ [] }

-- Store.enqueueTx: the sequence number is taken at once, also if the transaction fails later
unfoldable pub enqueue_tx : Env → OutboxEntry → Store → Tx → Store × Tx
enqueue_tx env e s tx =
    let n = s.outbox_seq + 1 in
    (
      record s { index = record s.index { outbox_seq = n } },
      add (outbox (queued env n e)) (append_note (queued env n e)) tx,
    )

-- the loop over the notes of a transition
unfoldable pub enqueue_all : Env → List OutboxEntry → Store → Tx → Store × Tx
unfolding enqueue_tx
enqueue_all env [] s tx = (s, tx)
enqueue_all env (e ∷ es) s tx = let (s', tx') = enqueue_tx env e s tx in enqueue_all env es s' tx'

-- Store.DueOutbox from the entries; `room` is what the limit leaves, `none` without a limit
unfoldable pub due_from : Time → Option ℕ → List OutboxEntry → List OutboxEntry
unfolding delivered
due_from now (some zero) es = []
due_from now room [] = []
due_from now none (e ∷ es) =
    let rest = due_from now none es in
    if delivered e || ltb now e.next_attempt then rest else e ∷ rest
due_from now (some (suc n)) (e ∷ es) =
    let skip = due_from now (some (suc n)) es in
    let take_it = e ∷ due_from now (some n) es in
    if delivered e || ltb now e.next_attempt then skip else take_it

unfoldable pub due_outbox : Env → ℕ → Store → List OutboxEntry
unfolding due_from
due_outbox env limit s = due_from env.now (if limit == 0 then none else some limit) s.outbox

-- Store.PendingOutbox
unfoldable pub pending_of : List OutboxEntry → ℕ
unfolding delivered
pending_of [] = 0
pending_of (e ∷ es) = (if delivered e then 0 else 1) + pending_of es

-- backoff: 1<<min(attempts, 8) seconds, at most five minutes. The shift and the product are on 64
-- bits; the comparison is signed.
unfoldable pub backoff : ℕ → Duration
backoff attempts =
    let d = 2 ^ (if ltb attempts 8 then attempts else 8) % 2 ^ 64 * second % 2 ^ 64 in
    if ltb (300 * second) d && ltb d (2 ^ 63) then 300 * second else d

abbrev pub mark_delivered : Env → OutboxEntry → OutboxEntry
mark_delivered env e = record e { delivered_at = some env.now; last_error = "" }

abbrev pub mark_failed : Env → String → OutboxEntry → OutboxEntry
mark_failed env cause e = record e {
  attempts = e.attempts + 1;
  last_error = cause;
  next_attempt = env.now + backoff (e.attempts + 1);
}

unfoldable pub find_entry : ℕ → List OutboxEntry → Option OutboxEntry
find_entry id [] = none
find_entry id (e ∷ es) = if e.id == id then some e else find_entry id es

-- `*target = next`, at the first entry with the id
unfoldable pub set_entry : OutboxEntry → List OutboxEntry → List OutboxEntry
set_entry next [] = []
set_entry next (e ∷ es) = if e.id == next.id then next ∷ es else e ∷ set_entry next es

module _ (p : Platform) where
  -- Store.Enqueue
  unfoldable pub enqueue : Env → OutboxEntry → Store → Result (Unit {0}) × Store
  unfolding enqueue_tx
  enqueue env e s = let (s', tx) = enqueue_tx env e s begin in commit_tx p env tx s'

  unfoldable pub write_state : Env → OutboxEntry → Store → Result (Unit {0}) × Store
  write_state env next s =
      commit_tx p env
        (add (outbox_state next) (λ i. record i { outbox = set_entry next i.outbox }) begin) s

  -- Store.updateOutbox
  unfoldable pub update_outbox :
      Env → ℕ → (OutboxEntry → OutboxEntry) → Store → Result (Unit {0}) × Store
  update_outbox env id f s = elim (find_entry id s.outbox) [
    | none ↦ (err not_found, s)
    | some e ↦ write_state env (f e) s
  ]

  -- Store.MarkDelivered, Store.MarkFailed
  unfoldable pub deliver : Env → ℕ → Store → Result (Unit {0}) × Store
  unfolding update_outbox
  deliver env id s = update_outbox env id (mark_delivered env) s

  unfoldable pub fail_delivery : Env → ℕ → String → Store → Result (Unit {0}) × Store
  unfolding update_outbox
  fail_delivery env id cause s = update_outbox env id (mark_failed env cause) s
