-- ===== src/Engine/Steps.antt =====
-- internal/engine/executor.go: the steps of a run. The context of a call is left out; the outputs of
-- a provider are texts that are redacted already.
pub mod Preflight
use dev_ops_pipeline_orchest.Prelude.{
  Bool, List, String, [], false, if◌then◌else◌, ltb, not, some, true, ℕ, ◌&&◌, ◌==◌, ◌||◌, ◌∷◌,
  string_eq, nat_eq,
}
use dev_ops_pipeline_orchest.Engine.Verify.{Verdict, healthy, inconclusive}
use dev_ops_pipeline_orchest.Store.State.{succeeded}
use dev_ops_pipeline_orchest.Store.Rows.{Deployment, Duration, Step, Time}
use dev_ops_pipeline_orchest.Store.Deployments.{update_deployment}
use dev_ops_pipeline_orchest.Config.Schema.{AppEnv, CanaryStep, StrategyType, blue_green, canary}
use dev_ops_pipeline_orchest.Engine.Rollback.{check_rollback_budget}
use dev_ops_pipeline_orchest.Engine.World.{
  Current, DeployReply, DeployRequest, M, ShiftReply, World, ask, blocked_deploy, call,
  context_ended, deploy_call, deploy_failed, deploy_refused, deployed_as, emit, fail,
  failed_verdict, guard, if_some, ignore, inconclusive_verdict, invalid_target, live_version, look,
  modify, no_provider, now_time, pure, shift_call, shift_failed, shift_refused, shifted, the_dep,
  unknown_live, unknown_version, unreadable, unreadable_version, unsupported_strategy, with_handle,
  with_previous, ◌>>=◌, ◌>>◌,
}
use dev_ops_pipeline_orchest.Engine.Verify.Live.{verify_now}
use dev_ops_pipeline_orchest.Engine.Gates.{check_freeze}
use dev_ops_pipeline_orchest.Store.Queries.{list_deployments}
use dev_ops_pipeline_orchest.Store.Tables.{record_step}

-- the two strategies that move traffic
unfoldable pub moves_traffic : StrategyType → Bool
moves_traffic canary = true
moves_traffic blue_green = true
moves_traffic _ = false

unfoldable pub is_canary : StrategyType → Bool
is_canary canary = true
is_canary _ = false

unfoldable pub is_blue_green : StrategyType → Bool
is_blue_green blue_green = true
is_blue_green _ = false

-- an error of `p.Shift` that is not ErrUnsupported
abbrev pub refused : ShiftReply → Bool
refused shift_refused = true
refused _ = false

abbrev pub moved_there : ShiftReply → Bool
moved_there shifted = true
moved_there _ = false

abbrev pub step_row : Deployment → ℕ → String → String → Time → Time → String → String → Step
step_row d seq name state started finished output error = record {
  deployment_id = d.id;
  seq = seq;
  name = name;
  state = state;
  started_at = some started;
  finished_at = some finished;
  output = output;
  error = error;
}

abbrev pub deploy_request : AppEnv → Deployment → DeployRequest
deploy_request cfg d = record {
  app = cfg.app;
  environment = cfg.name;
  provider = cfg.provider;
  version = d.version;
  previous = d.previous_version;
  idempotency_key = d.id;
  fence = d.fence;
  strategy = cfg.strategy.kind;
  batch_size = cfg.strategy.batch_size;
  is_rollback = d.is_rollback;
}

unfoldable pub has_version : String → List Deployment → Bool
has_version v [] = false
has_version v (u ∷ us) = if u.version == v then true else has_version v us

module _ (w : World) where
  -- Executor.step with a function that has no error
  unfoldable pub note_preflight : M (Unit {0})
  note_preflight = do
    started ← now_time w
    finished ← now_time w
    d ← the_dep
    ignore (
        call w (λ env.
          record_step w.platform env (step_row d 1 "preflight" "ok" started finished "" "")))

  -- `e.providers.Get`
  unfoldable pub find_provider : AppEnv → M (Unit {0})
  find_provider cfg = guard (w.registered cfg.provider) no_provider

  unfoldable pub check_target : AppEnv → M (Unit {0})
  check_target cfg = do
    find_provider cfg
    guard (w.valid_target cfg) invalid_target
    guard (not (moves_traffic cfg.strategy.kind) || w.shifts_traffic cfg.provider)
        unsupported_strategy

  unfoldable pub version_of : Current → M String
  version_of unreadable = fail unreadable_version
  version_of unknown_live = fail unknown_version
  version_of (live_version v) = pure v

  -- `p.Current`
  unfoldable pub read_current : M String
  read_current = ask w.current >>= version_of

  -- the call of CheckRollbackBudget
  unfoldable pub check_budget : AppEnv → Deployment → M (Unit {0})
  check_budget cfg d = do
    spent ←
        look w
          (λ env. check_rollback_budget env d.app d.environment d.version cfg.rollback.max_attempts)
    guard (not spent) blocked_deploy

  -- Executor.checkPromotion
  unfoldable pub check_promotion : AppEnv → Deployment → M (Unit {0})
  check_promotion cfg d = do
    upstream ← look w (λ env. list_deployments (record {
      app = d.app;
      environment = cfg.promote_from;
      states = succeeded ∷ [];
      limit = 200;
    }))
    guard (has_version d.version upstream) blocked_deploy

  unfoldable pub check_history : AppEnv → Deployment → M (Unit {0})
  check_history cfg d =
      if d.is_rollback
      then pure tt
      else do check_budget cfg d; if cfg.promote_from == "" then pure tt else check_promotion cfg d

  -- a change of the row in memory that is stored
  unfoldable pub save : (Deployment → Deployment) → M (Unit {0})
  save g = do modify g; d ← the_dep; call w (λ env. update_deployment w.platform env d)

  -- Executor.preflight
  unfoldable pub preflight_step : AppEnv → M (Unit {0})
  preflight_step cfg = do
    note_preflight
    check_freeze w
    check_target cfg
    running ← read_current
    d ← the_dep
    guard (not (running == d.version && not d.is_rollback)) blocked_deploy
    check_history cfg d
    save (with_previous running)

  unfoldable pub note_deploy : String → String → String → M (Unit {0})
  note_deploy state output error = do
    started ← now_time w
    finished ← now_time w
    d ← the_dep
    call w (λ env.
        record_step w.platform env (step_row d 2 "deploy" state started finished output error))

  -- `p.Shift`
  unfoldable pub shift_to : ℕ → M ShiftReply
  shift_to weight = do emit (shift_call weight); ask (λ n. w.shift n weight)

  -- a shift whose provider may not support it
  unfoldable pub shift_if_able : ℕ → M (Unit {0})
  shift_if_able weight = do r ← shift_to weight; guard (not (refused r)) shift_failed

  -- what follows `p.Deploy`
  unfoldable pub after_deploy : AppEnv → DeployReply → M (Unit {0})
  after_deploy cfg (deploy_refused output) = do
    ignore (note_deploy "failed" output (w.message deploy_failed))
    fail deploy_failed
  after_deploy cfg (deployed_as handle output) = do
    note_deploy "ok" output ""
    save (with_handle handle)
    if is_blue_green cfg.strategy.kind then shift_if_able 100 else pure tt

  -- Executor.deploy
  unfoldable pub deploy_step : AppEnv → M (Unit {0})
  deploy_step cfg = do
    find_provider cfg
    d ← the_dep
    emit (deploy_call (deploy_request cfg d))
    reply ← ask (λ n. w.deploy n (deploy_request cfg d))
    after_deploy cfg reply

  -- Executor.actOnVerdict
  unfoldable pub act_on_verdict : Verdict → M (Unit {0})
  act_on_verdict healthy = pure tt
  act_on_verdict inconclusive = fail inconclusive_verdict
  act_on_verdict _ = fail failed_verdict

  unfoldable pub verify_and_act : AppEnv → Duration → M (Unit {0})
  verify_and_act cfg window = do
    result ← verify_now w cfg.verify window
    act_on_verdict result.verdict

  abbrev pub bake_window : AppEnv → Duration → Duration
  bake_window cfg own = if ltb 0 own then own else cfg.bake

  unfoldable pub canary_step : AppEnv → CanaryStep → M (Unit {0})
  canary_step cfg s =
      if_some s.set_weight (λ weight. do r ← shift_to weight; guard (moved_there r) shift_failed)
        (if_some s.verify_bake (λ own. verify_and_act cfg (bake_window cfg own)) (pure tt))

  unfoldable pub canary_next : AppEnv → CanaryStep → M (Unit {0}) → M (Unit {0})
  canary_next cfg s next = do
    stopped ← ask w.cancelled
    guard (not stopped) context_ended
    canary_step cfg s
    next

  -- the loop of Executor.runCanary
  unfoldable pub canary_steps : AppEnv → List CanaryStep → M (Unit {0})
  canary_steps cfg [] = pure tt
  canary_steps cfg (s ∷ steps) = canary_next cfg s (canary_steps cfg steps)

  -- Executor.runCanary
  unfoldable pub run_canary : AppEnv → M (Unit {0})
  run_canary cfg = do find_provider cfg; canary_steps cfg cfg.strategy.steps

  -- Executor.verify
  unfoldable pub verify_step : AppEnv → M (Unit {0})
  verify_step cfg =
      if is_canary cfg.strategy.kind then run_canary cfg else verify_and_act cfg cfg.bake

  -- Executor.promote
  unfoldable pub promote_step : AppEnv → M (Unit {0})
  promote_step cfg = pure tt
