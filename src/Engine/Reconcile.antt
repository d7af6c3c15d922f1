-- ===== src/Engine/Reconcile.antt =====
-- internal/engine/reconcile.go: what a start does with the deployments that a crash has left.
-- The logs are left out.
use dev_ops_pipeline_orchest.Prelude.{
  List, String, [], if◌then◌else◌, not, true, ℕ, ◌+◌, ◌==◌, ◌||◌, ◌∷◌, string_eq, nat_eq,
}
use dev_ops_pipeline_orchest.Store.State.{
  State, can_transition, failed, pages, pending, preflight, state_name, unknown, verifying,
  state_eq,
}
use dev_ops_pipeline_orchest.Store.Rows.{AuditEntry, Deployment, Time, ok, resource}
use dev_ops_pipeline_orchest.Engine.World.{
  Cause, Current, Event, M, World, ask, call, if_some, ignore, live_version, look, modify,
  no_provider, no_recovery, now_time, pure, the_dep, the_row, unexpected_version, unknown_live,
  unknown_target, unknown_version, unreadable, unreadable_version, ◌>>=◌, ◌>>◌,
}
use dev_ops_pipeline_orchest.Engine.Run.{under_lease}
use dev_ops_pipeline_orchest.Config.Schema.{app_env}
use dev_ops_pipeline_orchest.Engine.Events.{event_for, record_error, transition_and_notify}
use dev_ops_pipeline_orchest.Store.Audit.{append_audit}
use dev_ops_pipeline_orchest.Store.Leases.{lease_held?}
use dev_ops_pipeline_orchest.Store.Queries.{non_terminal_deployments}

pub record ReconcileResult : Type 0 where
  pub examined : ℕ
  pub skipped : ℕ
  pub resumed : ℕ
  pub gave_up : ℕ
  pub unclear : ℕ

-- What is to be done with an orphan.
pub data Finding : Type 0 where
  resume never_started never_landed : Finding
  mystery : Cause → Finding

-- the three-way branch on what the provider says
unfoldable pub compare_with : Deployment → Current → Finding
compare_with d unreadable = mystery unreadable_version
compare_with d unknown_live = mystery unknown_version
compare_with d (live_version v) =
    if v == d.version
    then resume
    else if v == d.previous_version
    then never_landed
    else mystery unexpected_version

abbrev pub recovery_event : Deployment → State → Event → Event
recovery_event d to made = record made {
  actor = "reconciler";
  pages = if pages to then true else made.pages;
  detail = ("recovered_from", state_name d.state) ∷ [];
}

abbrev pub unknown_entry : Deployment → Time → String → AuditEntry
unknown_entry d at reason = record {
  id = 0;
  at = at;
  actor = "reconciler";
  action = "deployment.unknown";
  resource = resource d;
  detail = ("deployment", d.id) ∷ ("state", state_name d.state) ∷ ("reason", reason) ∷ [];
  prev_hash = "";
  hash = "";
}

unfoldable pub count : Finding → ReconcileResult → ReconcileResult
count resume r = record r { resumed = r.resumed + 1 }
count never_started r = record r { gave_up = r.gave_up + 1 }
count never_landed r = record r { gave_up = r.gave_up + 1 }
count (mystery c) r = record r { unclear = r.unclear + 1 }

module _ (w : World) where
  -- markUnknown where the state machine has no way to UNKNOWN
  unfoldable pub audit_unknown : Cause → M (Unit {0})
  audit_unknown cause = do
    d ← the_dep
    at ← now_time w
    call w (λ env. append_audit w.platform env (unknown_entry d at (w.message cause)))

  unfoldable pub enter_unknown : Cause → M (Unit {0})
  enter_unknown cause = do
    d ← the_dep
    ev ← event_for w unknown (w.message cause)
    transition_and_notify w unknown (record ev {
      actor = "reconciler";
      pages = true;
      detail =
          ("recovered_from", state_name d.state)
          ∷ (
            "action",
            "PRODUCTION STATE IS UNKNOWN. Check the environment by hand before deploying again.",
          )
          ∷ [];
    })

  unfoldable pub record_unknown : Cause → M (Unit {0})
  record_unknown cause = do
    record_error w cause
    d ← the_dep
    if can_transition d.state unknown then enter_unknown cause else audit_unknown cause

  -- Executor.markUnknown
  unfoldable pub mark_unknown : Cause → M (Unit {0})
  mark_unknown cause = do d ← the_dep; under_lease w d (record_unknown cause)

  unfoldable pub recover_to : State → String → M (Unit {0})
  recover_to to reason = do
    made ← event_for w to reason
    d ← the_dep
    if can_transition d.state to
        then transition_and_notify w to (recovery_event d to made)
        else mark_unknown (no_recovery d.state to)

  -- Executor.reconcileTransition
  unfoldable pub reconcile_transition : State → String → M (Unit {0})
  reconcile_transition to reason = do d ← the_dep; under_lease w d (recover_to to reason)

  -- The branches before the provider is asked, and its answer.
  unfoldable pub examine : Deployment → M Finding
  examine d =
      if_some (app_env w.config d.app d.environment)
        (λ cfg.
          if d.state == pending || d.state == preflight
          then pure never_started
          else if not (w.registered cfg.provider)
          then pure (mystery no_provider)
          else ask (λ n. compare_with d (w.current n)))
        (pure (mystery unknown_target))

  unfoldable pub act_on : Finding → M (Unit {0})
  act_on resume =
      reconcile_transition verifying
        "recovered after a restart: the new version is live but was never verified"
  act_on never_started =
      reconcile_transition failed "interrupted before any deployment was attempted"
  act_on never_landed =
      reconcile_transition failed
        "interrupted before the deploy took effect; the previous version is still live"
  act_on (mystery c) = mark_unknown c

  -- one orphan, behind the check of its lease
  unfoldable pub recover_one : Deployment → ReconcileResult → M ReconcileResult
  recover_one d r = do
    modify (the_row d)
    found ← examine d
    ignore (act_on found)
    pure (count found r)

  unfoldable pub next_orphan : Deployment → ReconcileResult → M ReconcileResult
  next_orphan d r = do
    held ← look w (λ env s. ok (lease_held? env (resource d) s))
    if held
        then pure (record r { examined = r.examined + 1; skipped = r.skipped + 1 })
        else recover_one d (record r { examined = r.examined + 1 })

  -- the loop over the orphans
  unfoldable pub reconcile_all : List Deployment → ReconcileResult → M ReconcileResult
  reconcile_all [] r = pure r
  reconcile_all (d ∷ ds) r = next_orphan d r >>= reconcile_all ds

  -- Executor.Reconcile
  unfoldable pub reconcile : M ReconcileResult
  reconcile = do
    orphans ← look w (λ env s. non_terminal_deployments s)
    reconcile_all orphans
        (record { examined = 0; skipped = 0; resumed = 0; gave_up = 0; unclear = 0 })
