-- ===== src/Store/StoreTests.antt =====
-- Tests and examples for the operations of the store.
use dev_ops_pipeline_orchest.Prelude.{
  List, String, [], arith, false, insert, length, lookup, none, refl, some, true, ℕ, ◌++◌, ◌<◌, ◌↔◌,
  ◌∷◌, ◌≡◌, ◌≤◌, string_eq, nat_eq,
}
use dev_ops_pipeline_orchest.Store.State.{
  State, is_terminal, pending, preflight, succeeded, state_eq,
}
use dev_ops_pipeline_orchest.Store.Rows.{
  Approval, AuditEntry, Deployment, Lease, OutboxEntry, StoreError, err, ok, stale_fence,
}
use dev_ops_pipeline_orchest.Store.Journal.Recovery.{clean, opened}
use dev_ops_pipeline_orchest.Store.Transactions.{
  Env, Store, commit_tx, committed, open_store, run_after,
}
use dev_ops_pipeline_orchest.Store.Operations.{
  Calls, Op, Runs, acquire, call, create, done, empty_store, mark_sent, move_to, no_call, queue,
  run_op, then_call,
}
use dev_ops_pipeline_orchest.Store.Durability.Reopen.{open_store-Runs, reopened}
use dev_ops_pipeline_orchest.Store.Index.{genesis_hash, slice}
use dev_ops_pipeline_orchest.Store.Tables.{has_approved, record_approval}
use dev_ops_pipeline_orchest.Store.Tables.Approvals.{AllOnce, record_approval-AllOnce}
use dev_ops_pipeline_orchest.Store.Fixtures.{
  at_time, lax_platform, lease_codec-IsCodec, lease_platform, new_row,
}
use dev_ops_pipeline_orchest.Store.Deployments.{
  add_deployment, create_deployment, create_fresh, insert_row, transition, transition_check,
}
use dev_ops_pipeline_orchest.Store.Journal.{append_group, encode_group, encode_record, land}
use dev_ops_pipeline_orchest.Store.Audit.{verify_audit}
use dev_ops_pipeline_orchest.Store.Deployments.Outcomes.{
  Moved, Untouched, transition_all_or_nothing,
}
use dev_ops_pipeline_orchest.Store.Leases.{
  acquire_lease, check_fence, lease_held?, live, take_lease,
}
use dev_ops_pipeline_orchest.Store.Leases.Exclusion.{Owns, acquire_lease-Owns}
use dev_ops_pipeline_orchest.Store.Outbox.{enqueue, enqueue_tx, find_entry}
use dev_ops_pipeline_orchest.Store.Progress.Chain.{
  Dated, log_append_only, verify_audit-Calls, verify_audit_iff,
}
use dev_ops_pipeline_orchest.Store.Progress.Keyed.{create_deployment-again}
use dev_ops_pipeline_orchest.Store.Progress.Parts.{Kept, Linked, fence_of}
use dev_ops_pipeline_orchest.Store.Progress.Promises.{
  outbox_never_loses, rows_follow, stale_for_good, terminal_for_good,
}
use dev_ops_pipeline_orchest.Store.State.Paths.{History}

abbrev take_it : Op
take_it = acquire "app:a/env:p" "d1" "n1"

abbrev leased_store : Store
leased_store = run_op lease_platform (at_time 5) take_it (empty_store 30)

leased_run : Runs lease_platform (empty_store 30) leased_store
leased_run = call (at_time 5) take_it refl tt done

open_store-Runs_example :
    (q : ℕ) × (q ≤ leased_store.outbox_seq)
    × (open_store lease_platform 30 (opened (leased_store.journal.file ++ []))
        ≡ some (ok (reopened lease_platform 30 q leased_store)))
open_store-Runs_example =
    open_store-Runs lease_platform 30 30 leased_store [] lease_codec-IsCodec leased_run clean

abbrev row_store : Store
row_store = run_op lax_platform (at_time 1) (create new_row) (empty_store 30)

abbrev terminal_row : Deployment
terminal_row = record new_row { id = "d0"; state = succeeded; idempotency_key = "k0" }

abbrev ended_store : Store
ended_store = run_op lax_platform (at_time 2) (create terminal_row) row_store

-- A move that is legal, with a note, and one that asks for a lease which is not there.
abbrev note : OutboxEntry
note = record {
  id = 0;
  created_at = 0;
  notifier = "slack";
  payload = "{}";
  attempts = 0;
  next_attempt = 0;
  delivered_at = none;
  last_error = "";
  dedupe_key = "d1";
}

abbrev move_on : Op
move_on = move_to "d1" 0 pending preflight none (note ∷ [])

abbrev moved_store : Store
moved_store = run_op lax_platform (at_time 3) move_on ended_store

moved_store-Calls : Calls lax_platform ended_store moved_store
moved_store-Calls = then_call (at_time 3) move_on no_call

from_empty-Calls : Calls lax_platform (empty_store 30) moved_store
from_empty-Calls =
    then_call (at_time 1) (create new_row)
      (then_call (at_time 2) (create terminal_row) moved_store-Calls)

abbrev stored_row : Deployment
stored_row = record new_row { state = pending; created_at = 1; updated_at = 1 }

created_ok : lookup "d1" ended_store.deployments ≡ some stored_row
unfolding run_op create_deployment create_fresh insert_row commit_tx committed append_group
    encode_group encode_record land run_after add_deployment lookup insert
created_ok = refl

ended_ok :
    lookup "d0" ended_store.deployments
    ≡ some (record terminal_row { created_at = 2; updated_at = 2 })
unfolding run_op create_deployment create_fresh insert_row commit_tx committed append_group
    encode_group encode_record land run_after add_deployment lookup insert
ended_ok = refl

rows_follow_example :
    (d' : Deployment) × (ts : List State) × (lookup "d1" moved_store.deployments ≡ some d')
    × History pending ts d'.state
    × (length ts ≤ 7)
rows_follow_example = rows_follow lax_platform "d1" stored_row moved_store-Calls created_ok

ended_row : Deployment
ended_row = record terminal_row { created_at = 2; updated_at = 2 }

terminal_for_good_example :
    (d' : Deployment) × (lookup "d0" moved_store.deployments ≡ some d') × (d'.state ≡ succeeded)
unfolding ended_row is_terminal
terminal_for_good_example =
    terminal_for_good lax_platform "d0" ended_row moved_store-Calls ended_ok refl

verify_audit_iff_example : (verify_audit lax_platform row_store ≡ true) ↔ (
    ((head : String) × Linked lax_platform genesis_hash row_store.audit head)
    × Dated none row_store.audit)
verify_audit_iff_example = verify_audit_iff lax_platform row_store

verify_audit-Calls_example :
    (verify_audit lax_platform moved_store ≡ true) ↔ Dated none moved_store.audit
verify_audit-Calls_example = verify_audit-Calls lax_platform 30 moved_store from_empty-Calls

log_append_only_example :
    (added : List AuditEntry) × (moved_store.audit ≡ ended_store.audit ++ added)
    × Linked lax_platform ended_store.audit_head added moved_store.audit_head
log_append_only_example = log_append_only lax_platform moved_store-Calls

stale_for_good_example :
    check_fence
      (at_time 7)
      "app:a/env:p"
      "d0"
      0
      (run_op lease_platform (at_time 40) take_it leased_store)
    ≡ err stale_fence
unfolding run_op acquire_lease take_lease commit_tx committed append_group encode_group
    encode_record land run_after fence_of lookup insert
stale_for_good_example =
    stale_for_good lease_platform {s = leased_store} (at_time 7) "app:a/env:p" "d0" 0
      (then_call (at_time 40) take_it no_call) (omega arith)

acquire_lease-Owns_example :
    let s = empty_store 30 in
    Owns
      (at_time 5)
      "app:a/env:p"
      "d1"
      1
      (acquire_lease lease_platform (at_time 5) "app:a/env:p" "d1" "n1" s).1
    × ((cur : Lease)
        → lookup "app:a/env:p" s.leases ≡ some cur
        → live cur 5 ≡ true
        → cur.holder ≡ "d1")
    × ((env' : Env) (holder' node' : String) (g : ℕ) (s' : Store)
        → (acquire_lease lease_platform env' "app:a/env:p" holder' node' s').0 ≡ ok g
        → Calls lease_platform
            (acquire_lease lease_platform env' "app:a/env:p" holder' node' s').1
            s
        → lease_held? (at_time 5) "app:a/env:p" s ≡ false
        → g < 1)
unfolding acquire_lease take_lease commit_tx committed append_group encode_group encode_record land
    lookup
acquire_lease-Owns_example =
    acquire_lease-Owns lease_platform (at_time 5) "app:a/env:p" "d1" "n1" 1 (empty_store 30)
      (omega arith) refl

create_deployment-again_example :
    (stored_row.id ≡ new_row.id)
    × (y : Deployment) × (ts : List State) × (create_deployment lax_platform
          (at_time 9)
          (record new_row { id = "d2" })
          ended_store
        ≡ (ok (some y, false), ended_store))
    × (lookup stored_row.id ended_store.deployments ≡ some y)
    × (y.id ≡ stored_row.id)
    × History pending ts y.state
unfolding run_op create_deployment create_fresh insert_row commit_tx committed append_group
    encode_group encode_record land lookup
create_deployment-again_example =
    create_deployment-again lax_platform (empty_store 30) (at_time 1) (at_time 9) new_row
      (record new_row { id = "d2" }) stored_row refl refl refl
      (then_call (at_time 2) (create terminal_row) no_call)

transition_all_or_nothing_example :
    let r =
      transition lax_platform (at_time 3) "d1" 0 pending preflight none (note ∷ []) ended_store in
    (r.0 ≡ ok tt
      → Moved lax_platform (at_time 3) "d1" 0 pending preflight none (note ∷ []) ended_store r.1)
    × ((x : StoreError)
        → transition_check lax_platform (at_time 3) "d1" 0 pending preflight ended_store ≡ err x
        → r ≡ (err x, ended_store))
    × ((x : StoreError) → r.0 ≡ err x → Untouched ended_store r.1)
transition_all_or_nothing_example =
    transition_all_or_nothing lax_platform (at_time 3) "d1" 0 pending preflight none (note ∷ [])
      ended_store

queued_store : Store
queued_store = run_op lax_platform (at_time 4) (queue note) (empty_store 30)

queued_note : OutboxEntry
queued_note = record note { id = 1; created_at = 4; next_attempt = 4 }

queued_ok : find_entry 1 queued_store.outbox ≡ some queued_note
unfolding queued_store queued_note run_op enqueue enqueue_tx commit_tx committed append_group
    encode_group encode_record land run_after find_entry
queued_ok = refl

outbox_never_loses_example :
    (e' : OutboxEntry) × (find_entry 1
        (run_op lax_platform (at_time 6) (mark_sent 1) queued_store).outbox
      ≡ some e')
    × Kept queued_note e'
outbox_never_loses_example =
    outbox_never_loses lax_platform 1 queued_note (then_call (at_time 6) (mark_sent 1) no_call)
      queued_ok

-- A deployment that waits for approvals.
abbrev waiting_store : Store
waiting_store =
    let s = empty_store 30 in
    record s { index = record s.index { deployments = ("d1", stored_row) ∷ []; order = "d1" ∷ [] } }

abbrev yes_vote : Approval
yes_vote = record { deployment_id = "d1"; user = "u2"; at = 0; source = "cli" }

waiting_store-AllOnce : AllOnce waiting_store
unfolding lookup
waiting_store-AllOnce id = tt

record_approval-AllOnce_example :
    AllOnce (record_approval lax_platform (at_time 5) yes_vote waiting_store).1
    × (has_approved "u2" (slice "d1" waiting_store.approvals) ≡ true
        → record_approval lax_platform (at_time 5) yes_vote waiting_store ≡ (ok tt, waiting_store))
record_approval-AllOnce_example =
    record_approval-AllOnce lax_platform (at_time 5) yes_vote waiting_store waiting_store-AllOnce
