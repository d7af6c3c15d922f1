-- ===== src/Store/Tables.antt =====
-- internal/store/store.go: steps, health samples, approvals and freezes.
pub mod Approvals
use dev_ops_pipeline_orchest.Prelude.{
  Bool, List, Option, String, [], false, if◌then◌else◌, insert, lookup, none, not, some, true, ◌&&◌,
  ◌++◌, ◌==◌, ◌∷◌, string_eq, nat_eq,
}
use dev_ops_pipeline_orchest.Store.Rows.{
  Approval, AuditEntry, Deployment, Freeze, HealthSample, Result, Step, approval, err, freeze,
  freeze_active, health, ok, panicked, resource, step,
}
use dev_ops_pipeline_orchest.Store.Index.{Index, put_step, slice}
use dev_ops_pipeline_orchest.Store.Transactions.{Env, Platform, Store, add, begin, commit_tx}
use dev_ops_pipeline_orchest.Store.Audit.{add_audit}

abbrev pub add_sample : HealthSample → Index → Index
add_sample h i = record i {
  samples = insert h.deployment_id (slice h.deployment_id i.samples ++ h ∷ []) i.samples;
}

abbrev pub add_approval : Approval → Index → Index
add_approval a i = record i {
  approvals = insert a.deployment_id (slice a.deployment_id i.approvals ++ a ∷ []) i.approvals;
}

-- whether this user's approval is there already
unfoldable pub has_approved : String → List Approval → Bool
has_approved u [] = false
has_approved u (a ∷ as') = if a.user == u then true else has_approved u as'

-- Store.Freeze: the freeze of a resource, while it is active
unfoldable pub active_freeze : Env → String → Store → Option Freeze
active_freeze env r s = elim (lookup r s.freezes) [
  | none ↦ none
  | some f ↦ if freeze_active f env.now then some f else none
]

abbrev pub approval_entry : Approval → Deployment → AuditEntry
approval_entry a d = record {
  id = 0;
  at = a.at;
  actor = a.user;
  action = "approval.granted";
  resource = resource d;
  detail = ("deployment", a.deployment_id) ∷ ("source", a.source) ∷ [];
  prev_hash = "";
  hash = "";
}

abbrev pub freeze_entry : Freeze → AuditEntry
freeze_entry f = record {
  id = 0;
  at = f.at;
  actor = if f.lifted && not (f.lifted_by == "") then f.lifted_by else f.by;
  action = if f.lifted then "deploy.unfrozen" else "deploy.frozen";
  resource = f.resource;
  detail = ("reason", f.reason) ∷ [];
  prev_hash = "";
  hash = "";
}

module _ (p : Platform) where
  -- Store.RecordStep
  unfoldable pub record_step : Env → Step → Store → Result (Unit {0}) × Store
  record_step env st s = commit_tx p env (add (step st) (put_step st) begin) s

  -- Store.RecordSample
  unfoldable pub record_sample : Env → HealthSample → Store → Result (Unit {0}) × Store
  record_sample env h s = commit_tx p env (add (health h) (add_sample h) begin) s

  unfoldable pub write_approval : Env → Approval → Deployment → Store → Result (Unit {0}) × Store
  write_approval env a d s =
      let tx =
        add_audit p s (approval_entry a d) (record { recs = approval a ∷ []; apply_after = [] }) in
      commit_tx p env (record tx { apply_after = tx.apply_after ++ add_approval a ∷ [] }) s

  -- the part of RecordApproval behind the guard: the deployment's row is read through a pointer that
  -- is nil where there is no such deployment
  unfoldable pub grant : Env → Approval → Store → Result (Unit {0}) × Store
  grant env a s = elim (lookup a.deployment_id s.deployments) [
    | none ↦ (err panicked, s)
    | some d ↦ write_approval env a d s
  ]

  -- Store.RecordApproval
  unfoldable pub record_approval : Env → Approval → Store → Result (Unit {0}) × Store
  record_approval env a s =
      let a' = if a.at == 0 then record a { at = env.now } else a in
      if has_approved a.user (slice a.deployment_id s.approvals) then (ok tt, s) else grant env a' s

  -- Store.SetFreeze
  unfoldable pub set_freeze : Env → Freeze → Store → Result (Unit {0}) × Store
  set_freeze env f s =
      let f' = if f.at == 0 then record f { at = env.now } else f in
      let tx =
        add_audit p s (freeze_entry f') (record { recs = freeze f' ∷ []; apply_after = [] }) in
      commit_tx p env
        (record tx {
          apply_after =
              tx.apply_after ++ (λ i. record i { freezes = insert f'.resource f' i.freezes }) ∷ [];
        })
        s
