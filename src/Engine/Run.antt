-- ===== src/Engine/Run.antt =====
-- internal/engine/executor.go: a run from the lease to the last state, and the abort of one. The
-- hooks are nil, as in production. The heartbeat is among the others' calls and in `lost`.
pub mod Calls
pub mod Order
pub mod Loaded
pub mod Success
pub mod Outside
use dev_ops_pipeline_orchest.Prelude.{
  List, String, [], if◌then◌else◌, not, ◌&&◌, ◌==◌, ◌∷◌, ◌⧺◌, string_eq,
}
use dev_ops_pipeline_orchest.Store.State.{
  State, aborted, await_approval, deploying, is_terminal, preflight, promoting, succeeded,
  verifying, state_eq,
}
use dev_ops_pipeline_orchest.Store.Rows.{Deployment, resource}
use dev_ops_pipeline_orchest.Store.Leases.{acquire_lease, break_lease, get_lease, release_lease}
use dev_ops_pipeline_orchest.Config.Schema.{AppEnv, app_env}
use dev_ops_pipeline_orchest.Engine.World.{
  Cause, M, World, abort_call, already_ended, ask, call, defer, emit, fail, guard, if_some, ignore,
  lease_lost, look, modify, on_error, pure, the_row, unknown_target, with_fence, ◌>>=◌, ◌>>◌,
}
use dev_ops_pipeline_orchest.Engine.Steps.{deploy_step, preflight_step, promote_step, verify_step}
use dev_ops_pipeline_orchest.Engine.Events.{event_for, transition_and_notify}
use dev_ops_pipeline_orchest.Engine.Failure.{handle_failure}
use dev_ops_pipeline_orchest.Engine.Gates.{await_gates, needs_approval}
use dev_ops_pipeline_orchest.Store.Deployments.{get_deployment}

module _ (w : World) where
  -- the transition into a step, with its event
  unfoldable pub enter : State → M (Unit {0})
  enter s = do ev ← event_for w s ""; transition_and_notify w s ev

  -- the cause, or that the lease is lost: the cause is formatted into the text, not wrapped
  unfoldable pub blame : Cause → M Cause
  blame c = ask (λ n. if w.lost n then lease_lost else c)

  -- one step, before the next ones
  unfoldable pub next_step : AppEnv → State → M (Unit {0}) → M (Unit {0}) → M (Unit {0})
  next_step cfg s body next =
      if s == await_approval && not (needs_approval cfg.gates)
      then next
      else on_error (enter s) (handle_failure w cfg)
          (λ _. on_error body (λ c. blame c >>= handle_failure w cfg) (λ _. next))

  -- the loop over the steps, and the transition behind it
  unfoldable pub run_steps : AppEnv → List (State × M (Unit {0})) → M (Unit {0})
  run_steps cfg [] = enter succeeded
  run_steps cfg ((s, body) ∷ steps) = next_step cfg s body (run_steps cfg steps)

  abbrev pub all_steps : AppEnv → List (State × M (Unit {0}))
  all_steps cfg =
      (preflight, preflight_step w cfg)
      ∷ (await_approval, await_gates w cfg.gates)
      ∷ (deploying, deploy_step w cfg)
      ∷ (verifying, verify_step w cfg)
      ∷ (promoting, promote_step w cfg)
      ∷ []

  -- AcquireLease, and the deferred ReleaseLease
  unfoldable pub under_lease : Deployment → M (Unit {0}) → M (Unit {0})
  under_lease d body = do
    fence ← call w (λ env. acquire_lease w.platform env (resource d) d.id w.node_id)
    modify (with_fence fence)
    defer (ignore (call w (λ env. release_lease w.platform env (resource d) d.id))) body

  -- the row that an operation works on
  unfoldable pub load : String → M Deployment
  load id = do d ← look w (λ env. get_deployment id); modify (the_row d); pure d

  -- Executor.Run
  unfoldable pub run : String → M (Unit {0})
  run id = do
    d ← load id
    guard (not (is_terminal d.state)) already_ended
    if_some (app_env w.config d.app d.environment)
        (λ cfg. under_lease d (run_steps cfg (all_steps cfg))) (fail unknown_target)

  -- the provider's Abort, whose error is logged
  unfoldable pub stop_provider : Deployment → M (Unit {0})
  stop_provider d =
      if d.provider_handle == ""
      then pure tt
      else if_some (app_env w.config d.app d.environment)
          (λ cfg.
            if w.registered cfg.provider then emit (abort_call d.provider_handle) else pure tt)
          (pure tt)

  -- its own lease is broken
  unfoldable pub break_own : Deployment → String → M (Unit {0})
  break_own d actor = do
    on_error (look w (λ env. get_lease (resource d))) (λ _. pure tt)
        (λ l.
          if l.holder == d.id
          then call w (λ env. break_lease w.platform env (resource d) actor)
          else pure tt)

  -- Executor.Abort
  unfoldable pub abort : String → String → M (Unit {0})
  abort id actor = do
    d ← load id
    guard (not (is_terminal d.state)) already_ended
    stop_provider d
    break_own d actor
    under_lease d do
      ev ← event_for w aborted ("aborted by " ⧺ actor)
      transition_and_notify w aborted (record ev { actor = actor })
