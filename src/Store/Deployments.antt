-- ===== src/Store/Deployments.antt =====
-- internal/store/store.go: deployments, their transitions and the queries on them.
pub mod Outcomes
use dev_ops_pipeline_orchest.Prelude.{
  Bool, List, Option, String, [], false, if◌then◌else◌, insert, lookup, none, not, some, true, ℕ,
  ◌++◌, ◌==◌, ◌||◌, ◌∷◌, string_eq, nat_eq,
}
use dev_ops_pipeline_orchest.Store.State.{
  State, can_transition, is_terminal, pending, requires_lease, unset, state_eq,
}
use dev_ops_pipeline_orchest.Store.Rows.{
  AuditEntry, Deployment, OutboxEntry, Result, already_exists, deployment, err, illegal_transition,
  not_found, ok, resource, unexpected_state, use_transition,
}
use dev_ops_pipeline_orchest.Store.Index.{Index}
use dev_ops_pipeline_orchest.Store.Transactions.{
  Env, Platform, Store, Tx, add, begin, commit_tx, with_value,
}
use dev_ops_pipeline_orchest.Store.Audit.{add_audit}
use dev_ops_pipeline_orchest.Store.Leases.{check_fence}
use dev_ops_pipeline_orchest.Store.Outbox.{enqueue_all}

abbrev pub set_deployment : Deployment → Index → Index
set_deployment d i = record i { deployments = insert d.id d i.deployments }

-- what CreateDeployment does to the index
unfoldable pub add_deployment : Deployment → Index → Index
add_deployment d i = record i {
  order = i.order ++ d.id ∷ [];
  deployments = insert d.id d i.deployments;
  by_idem_key =
      if d.idempotency_key == ""
      then i.by_idem_key
      else insert d.idempotency_key d.id i.by_idem_key;
}

-- Store.Deployment
unfoldable pub get_deployment : String → Store → Result Deployment
get_deployment id s = elim (lookup id s.deployments) [ none ↦ err not_found | some d ↦ ok d ]

-- `clone(s.deployments[id])`: a missing row is Go's nil
abbrev pub row : String → Store → Option Deployment
row id s = lookup id s.deployments

-- Store.DeploymentByIdempotencyKey
unfoldable pub by_key : String → Store → Result (Option Deployment)
by_key key s = elim (lookup key s.by_idem_key) [ none ↦ err not_found | some id ↦ ok (row id s) ]

abbrev pub created_row : Env → Deployment → Deployment
created_row env d = record d {
  created_at = if d.created_at == 0 then env.now else d.created_at;
  updated_at = env.now;
  state = if d.state == unset then pending else d.state;
}

abbrev pub created_entry : Env → Deployment → AuditEntry
created_entry env d = record {
  id = 0;
  at = env.now;
  actor = d.triggered_by;
  action = "deployment.created";
  resource = resource d;
  detail = ("deployment", d.id) ∷ ("version", d.version) ∷ ("source", d.trigger_source) ∷ [];
  prev_hash = "";
  hash = "";
}

-- the row that `transition` writes
unfoldable pub moved : Env → State → Deployment → Deployment
moved env to d = record d {
  state = to;
  updated_at = env.now;
  finished_at = if is_terminal to then some env.now else d.finished_at;
}

-- the defaults that `transition` gives an entry
abbrev pub entry_for : Env → Deployment → AuditEntry → AuditEntry
entry_for env d e = record e {
  at = if e.at == 0 then env.now else e.at;
  resource = if e.resource == "" then resource d else e.resource;
}

module _ (p : Platform) where
  unfoldable pub insert_row : Env → Deployment → Store → Result (Option Deployment × Bool) × Store
  insert_row env d s =
      let d' = created_row env d in
      let tx =
        add_audit p s (created_entry env d')
          (record { recs = deployment d' ∷ []; apply_after = [] }) in
      with_value (some d', true)
        (commit_tx p env (record tx { apply_after = tx.apply_after ++ add_deployment d' ∷ [] }) s)

  unfoldable pub create_fresh : Env → Deployment → Store → Result (Option Deployment × Bool) × Store
  create_fresh env d s = elim (lookup d.id s.deployments) [
    | some _ ↦ (err already_exists, s)
    | none ↦ insert_row env d s
  ]

  -- Store.CreateDeployment: the row, and whether it was created now
  unfoldable pub create_deployment :
      Env → Deployment → Store → Result (Option Deployment × Bool) × Store
  create_deployment env d s =
      if d.idempotency_key == ""
      then create_fresh env d s
      else elim (lookup d.idempotency_key s.by_idem_key) [
        | some id ↦ (ok (row id s, false), s)
        | none ↦ create_fresh env d s
      ]

  -- the guards of `transition`, in their order
  unfoldable pub transition_check : Env → String → ℕ → State → State → Store → Result Deployment
  transition_check env id fence from to s = elim (lookup id s.deployments) [
    | none ↦ err not_found
    | some d ↦
        if not (d.state == from)
        then err (unexpected_state from d.state)
        else if not (can_transition from to)
        then err (illegal_transition from to)
        else if requires_lease to || requires_lease from
        then elim (check_fence env (resource d) id fence s) [ err e ↦ err e | ok _ ↦ ok d ]
        else ok d
  ]

  abbrev pub add_entry : Env → Deployment → Option AuditEntry → Store → Tx → Tx
  add_entry env d none s tx = tx
  add_entry env d (some e) s tx = add_audit p s (entry_for env d e) tx

  unfoldable pub write_transition :
      Env
      → String
      → State
      → Deployment
      → Option AuditEntry
      → List OutboxEntry
      → Store
      → Result (Unit {0}) × Store
  write_transition env id to d entry notes s =
      let next = moved env to d in
      let tx = add_entry env d entry s (record { recs = deployment next ∷ []; apply_after = [] }) in
      let (s', tx') = enqueue_all env notes s tx in
      commit_tx p env
        (record tx' {
          apply_after =
              tx'.apply_after
              ++ (λ i. record i { deployments = insert id next i.deployments }) ∷ [];
        })
        s'

  -- Store.transition, behind TransitionState (no entry, no notes) and TransitionStateAndNotify
  unfoldable pub transition :
      Env
      → String
      → ℕ
      → State
      → State
      → Option AuditEntry
      → List OutboxEntry
      → Store
      → Result (Unit {0}) × Store
  transition env id fence from to entry notes s = elim (transition_check env id fence from to s) [
    | err e ↦ (err e, s)
    | ok d ↦ write_transition env id to d entry notes s
  ]

  unfoldable pub write_update : Env → Deployment → Store → Result (Unit {0}) × Store
  write_update env d s =
      let next = record d { updated_at = env.now } in
      commit_tx p env (add (deployment next) (set_deployment next) begin) s

  -- Store.UpdateDeployment
  unfoldable pub update_deployment : Env → Deployment → Store → Result (Unit {0}) × Store
  update_deployment env d s = elim (lookup d.id s.deployments) [
    | none ↦ (err not_found, s)
    | some cur ↦
        if not (cur.state == d.state) then (err use_transition, s) else write_update env d s
  ]
