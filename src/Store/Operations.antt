-- ===== src/Store/Operations.antt =====
-- internal/store/store.go: the operations that change a store, as one type.
use dev_ops_pipeline_orchest.Prelude.{List, Option, String, [], lookup, some, ℕ, ◌≡◌}
use dev_ops_pipeline_orchest.Store.State.{State}
use dev_ops_pipeline_orchest.Store.Rows.{
  Approval, AuditEntry, Deployment, Duration, Freeze, HealthSample, OutboxEntry, Step,
}
use dev_ops_pipeline_orchest.Store.Transactions.{Env, Platform, Store}
use dev_ops_pipeline_orchest.Store.Leases.{acquire_lease, break_lease, release_lease, renew_lease}
use dev_ops_pipeline_orchest.Store.Deployments.{create_deployment, transition, update_deployment}
use dev_ops_pipeline_orchest.Store.Outbox.{deliver, enqueue, fail_delivery}
use dev_ops_pipeline_orchest.Store.Tables.{record_approval, record_sample, record_step, set_freeze}
use dev_ops_pipeline_orchest.Store.Journal.{durable}
use dev_ops_pipeline_orchest.Store.Audit.{append_audit}
use dev_ops_pipeline_orchest.Store.Index.{empty_index}

-- A call of an exported method of `Store` that writes, with its arguments.
pub data Op : Type 0 where
  acquire : String → String → String → Op
  renew : String → String → ℕ → Op
  release : String → String → Op
  break_it : String → String → Op
  create : Deployment → Op
  move_to : String → ℕ → State → State → Option AuditEntry → List OutboxEntry → Op
  update : Deployment → Op
  queue : OutboxEntry → Op
  mark_sent : ℕ → Op
  mark_lost : ℕ → String → Op
  note_step : Step → Op
  note_sample : HealthSample → Op
  note_audit : AuditEntry → Op
  approve : Approval → Op
  set_frozen : Freeze → Op

module _ (p : Platform) where
  unfoldable pub run_op : Env → Op → Store → Store
  run_op env (acquire r holder node) s = (acquire_lease p env r holder node s).1
  run_op env (renew r holder fence) s = (renew_lease p env r holder fence s).1
  run_op env (release r holder) s = (release_lease p env r holder s).1
  run_op env (break_it r actor) s = (break_lease p env r actor s).1
  run_op env (create d) s = (create_deployment p env d s).1
  run_op env (move_to id fence from to entry notes) s =
      (transition p env id fence from to entry notes s).1
  run_op env (update d) s = (update_deployment p env d s).1
  run_op env (queue e) s = (enqueue p env e s).1
  run_op env (mark_sent id) s = (deliver p env id s).1
  run_op env (mark_lost id cause) s = (fail_delivery p env id cause s).1
  run_op env (note_step st) s = (record_step p env st s).1
  run_op env (note_sample h) s = (record_sample p env h s).1
  run_op env (note_audit e) s = (append_audit p env e s).1
  run_op env (approve a) s = (record_approval p env a s).1
  run_op env (set_frozen f) s = (set_freeze p env f s).1

-- A new store on an empty file.
abbrev pub empty_store : Duration → Store
empty_store ttl = record {
  index = empty_index;
  lease_ttl = ttl;
  journal = record { file = []; seq = 0; syncs = 0; written = 0 };
}

-- A caller of UpdateDeployment leaves the row's idempotency key as it is stored.
abbrev pub Allowed : Op → Store → Type 0
Allowed (update d) s =
    (cur : Deployment)
    → lookup d.id s.deployments ≡ some cur
    → cur.idempotency_key ≡ d.idempotency_key
Allowed _ s = Unit {0}

-- `Calls p s s'`: calls lead from `s` to `s'`, each with the clock and the disk that it meets, in a
-- store that may fail to write.
pub data Calls (p : Platform) : Store → Store → Type 0 where
  no_call : {s : Store} → Calls p s s
  then_call : {s s' : Store} (env : Env) (op : Op) → Calls p (run_op p env op s) s' → Calls p s s'

-- `Runs p s s'`: calls, each with the clock and on a disk that takes its group, lead from `s` to `s'`.
pub data Runs (p : Platform) : Store → Store → Type 0 where
  done : {s : Store} → Runs p s s
  call :
      {s s' : Store} (env : Env) (op : Op)
      → env.disk ≡ durable
      → Allowed op s
      → Runs p (run_op p env op s) s'
      → Runs p s s'
