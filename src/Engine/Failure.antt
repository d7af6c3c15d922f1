-- ===== src/Engine/Failure.antt =====
-- internal/engine/executor.go: what the executor does when a run fails.
use dev_ops_pipeline_orchest.Prelude.{
  Bool, String, false, if◌then◌else◌, inl, inr, not, true, ◌⊎◌, ◌⧺◌,
}
use dev_ops_pipeline_orchest.Store.State.{State, failed, rollback_failed, rolled_back, rolling_back}
use dev_ops_pipeline_orchest.Store.Rows.{Deployment, ok}
use dev_ops_pipeline_orchest.Store.Deployments.{get_deployment}
use dev_ops_pipeline_orchest.Config.Schema.{AppEnv}
use dev_ops_pipeline_orchest.Engine.Rollback.{Plan, Refusal, plan_rollback}
use dev_ops_pipeline_orchest.Engine.World.{
  Cause, DeployReply, DeployRequest, Event, M, ShiftReply, World, as_rollback, ask, blocked_deploy,
  call, deploy_failed, deploy_refused, deployed_as, emit, fail, ignore, inconclusive_verdict, look,
  modify, now_time, on_error, pure, rollback_call, rollback_refused, rolled_back_after,
  shift_failed, shifted, the_dep, with_state, ◌>>=◌, ◌>>◌,
}
use dev_ops_pipeline_orchest.Engine.Events.{
  event_for, failed_event, inconclusive_event, page_event, record_error, transition_and_notify,
  try_move, unsafe_rollback_event,
}
use dev_ops_pipeline_orchest.Engine.Steps.{
  find_provider, moves_traffic, refused, shift_to, step_row,
}
use dev_ops_pipeline_orchest.Store.Tables.{record_step}

-- errors.As with BlockedError and with VerificationInconclusive
unfoldable pub is_blocked : Cause → Bool
is_blocked blocked_deploy = true
is_blocked _ = false

unfoldable pub is_inconclusive : Cause → Bool
is_inconclusive inconclusive_verdict = true
is_inconclusive _ = false

abbrev pub rollback_request : AppEnv → Deployment → Plan → DeployRequest
rollback_request cfg d plan = record {
  app = cfg.app;
  environment = cfg.name;
  provider = cfg.provider;
  version = plan.version;
  previous = d.version;
  idempotency_key = d.id ⧺ ":rollback";
  fence = d.fence;
  strategy = cfg.strategy.kind;
  batch_size = cfg.strategy.batch_size;
  is_rollback = true;
}

-- stepState, the output and errString of a rollback's step
abbrev pub rollback_texts : World → DeployReply → String × String × String
rollback_texts w (deployed_as handle output) = ("ok", output, "")
rollback_texts w (deploy_refused output) = ("failed", output, w.message deploy_failed)

module _ (w : World) where
  -- a move whose error is dropped, and the return of the cause
  unfoldable pub give_up : State → M Event → Cause → M (Unit {0})
  give_up to make cause = try_move w to make >> fail cause

  unfoldable pub note_rollback : DeployReply → M (Unit {0})
  note_rollback reply = do
    started ← now_time w
    d ← the_dep
    let t = rollback_texts w reply
    ignore (
        call w
          (λ env. record_step w.platform env (step_row d 3 "rollback" t.0 started started t.1 t.2)))

  unfoldable pub deploy_back : AppEnv → Plan → M DeployReply
  deploy_back cfg plan = do
    d ← the_dep
    emit (rollback_call (rollback_request cfg d plan))
    reply ← ask (λ n. w.deploy n (rollback_request cfg d plan))
    note_rollback reply
    pure reply

  -- the traffic of a strategy that shifts it
  unfoldable pub shift_back : AppEnv → M ShiftReply
  shift_back cfg = if moves_traffic cfg.strategy.kind then shift_to w 0 else pure shifted

  -- the end of executeRollback
  unfoldable pub finish_rollback : Plan → Cause → M (Unit {0})
  finish_rollback plan cause = do
    modify as_rollback
    ev ← event_for w rolled_back ("rolled back to " ⧺ (plan.version ⧺ (": " ⧺ w.message cause)))
    transition_and_notify w rolled_back ev
    fail (rolled_back_after cause)

  unfoldable pub after_deploy_back : AppEnv → Plan → Cause → DeployReply → M (Unit {0})
  after_deploy_back cfg plan cause (deploy_refused output) =
      give_up rollback_failed (page_event w deploy_failed) deploy_failed
  after_deploy_back cfg plan cause (deployed_as handle output) = do
    r ← shift_back cfg
    if refused r
        then give_up rollback_failed (page_event w shift_failed) shift_failed
        else finish_rollback plan cause

  -- Executor.executeRollback
  unfoldable pub execute_rollback : AppEnv → Plan → Cause → M (Unit {0})
  execute_rollback cfg plan cause = do
    ev ← event_for w rolling_back (w.plan_reason plan)
    transition_and_notify w rolling_back ev
    on_error (find_provider w cfg) (λ c. give_up rollback_failed (page_event w c) c)
        λ _. do reply ← deploy_back cfg plan; after_deploy_back cfg plan cause reply

  -- the row's state, read again from the store
  unfoldable pub refresh_state : M (Unit {0})
  refresh_state = do
    d ← the_dep
    on_error (look w (λ env. get_deployment d.id)) (λ _. pure tt)
        (λ cur. modify (with_state cur.state))

  unfoldable pub follow : AppEnv → Cause → Plan ⊎ Refusal → M (Unit {0})
  follow cfg cause (inr r) =
      give_up rollback_failed (unsafe_rollback_event w cause (rollback_refused r)) cause
  follow cfg cause (inl plan) = execute_rollback cfg plan cause

  -- PlanRollback and what follows it
  unfoldable pub plan_and_roll_back : AppEnv → Cause → M (Unit {0})
  plan_and_roll_back cfg cause = do
    d ← the_dep
    plan ← look w (λ env s. ok (plan_rollback w.manifests cfg.rollback.check_migration_floor d s))
    follow cfg cause plan

  -- the branches of handleFailure
  unfoldable pub respond : AppEnv → Cause → Deployment → M (Unit {0})
  respond cfg cause d =
      if d.is_rollback
      then give_up rollback_failed (page_event w cause) cause
      else if is_blocked cause
      then give_up failed (failed_event w cause) cause
      else if is_inconclusive cause
      then give_up failed (inconclusive_event w cause) cause
      else if not cfg.rollback.automatic
      then give_up failed (failed_event w cause) cause
      else plan_and_roll_back cfg cause

  -- Executor.handleFailure
  unfoldable pub handle_failure : AppEnv → Cause → M (Unit {0})
  handle_failure cfg cause = do
    refresh_state
    record_error w cause
    d ← the_dep
    respond cfg cause d
