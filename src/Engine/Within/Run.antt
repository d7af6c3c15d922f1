-- ===== src/Engine/Within/Run.antt =====
-- A run and an abort.
use dev_ops_pipeline_orchest.Prelude.{All, List, String, [], refl, ℕ, ◌∷◌, ◌⧺◌}
use dev_ops_pipeline_orchest.Store.State.{State, aborted}
use dev_ops_pipeline_orchest.Store.Rows.{Deployment}
use dev_ops_pipeline_orchest.Store.Operations.{acquire, break_it, release, run_op}
use dev_ops_pipeline_orchest.Engine.Run.{
  abort, all_steps, blame, break_own, enter, load, next_step, run, run_steps, stop_provider,
  under_lease,
}
use dev_ops_pipeline_orchest.Engine.World.{
  Cause, DeployRequest, M, World, abort_call, as_rollback, call, deploy_call, entered,
  rollback_call, shift_call, the_row, ◌>>=◌, ◌>>◌,
}
use dev_ops_pipeline_orchest.Engine.World.Frames.{
  EffectFrame, Steady, Within, Within-ask, Within-call, Within-emit, frame_rules,
}
use dev_ops_pipeline_orchest.Config.Schema.{AppEnv}
use dev_ops_pipeline_orchest.Engine.Within.Basics.{
  Within-await_gates, Within-event_for, Within-transition_and_notify,
}
use dev_ops_pipeline_orchest.Engine.Events.{event_for, transition_and_notify}
use dev_ops_pipeline_orchest.Engine.Within.Failure.{Within-handle_failure}
use dev_ops_pipeline_orchest.Engine.Within.Steps.{
  Within-deploy_step, Within-preflight_step, Within-promote_step, Within-verify_step,
}
use dev_ops_pipeline_orchest.Store.Leases.{acquire_lease, break_lease, release_lease}

module _ (w : World) (f : EffectFrame w)
    (same : (g : Deployment → Deployment) → Steady g → f.Turns g) where
  pub Within-acquire :
      (r holder node : String)
      → Within w f (call w (λ env. acquire_lease w.platform env r holder node))
  unfolding run_op
  Within-acquire r holder node = Within-call w (λ _. acquire r holder node) _ (λ env s. refl)

  pub Within-release :
      (r holder : String) → Within w f (call w (λ env. release_lease w.platform env r holder))
  unfolding run_op
  Within-release r holder = Within-call w (λ _. release r holder) _ (λ env s. refl)

  Within-break :
      (r actor : String) → Within w f (call w (λ env. break_lease w.platform env r actor))
  unfolding run_op
  Within-break r actor = Within-call w (λ _. break_it r actor) _ (λ env s. refl)

  pub Within-under_lease :
      (d : Deployment) (x : M (Unit {0})) → Within w f x → Within w f (under_lease w d x)
  unfolding under_lease
  Within-under_lease d x h = search (frame_rules, same, Within-acquire, Within-release) depth 9

  pub Within-load :
      (id : String) → ((d : Deployment) → f.Turns (the_row d)) → Within w f (load w id)
  unfolding load
  Within-load id h = search (frame_rules, h)

  pub Within-blame : (c : Cause) → Within w f (blame w c)
  unfolding blame
  Within-blame c = Within-ask w _

  Within-break_own : (d : Deployment) (actor : String) → Within w f (break_own w d actor)
  unfolding break_own
  Within-break_own d actor = search (frame_rules, Within-break)

  Within-stop_provider :
      (d : Deployment) → f.Admits (abort_call d.provider_handle) → Within w f (stop_provider w d)
  unfolding stop_provider
  Within-stop_provider d h = search (frame_rules, Within-emit)

  module _ (enters : (s : State) → f.Admits (entered s)) where
    pub Within-enter : (s : State) → Within w f (enter w s)
    unfolding enter
    Within-enter s =
        search (frame_rules, same, Within-event_for, Within-transition_and_notify, enters)

    -- what an abort does with the row that it has loaded
    pub Within-abort_loaded :
        (d : Deployment) (actor : String)
        → ((h : String) → f.Admits (abort_call h))
        → Within w f (do
          stop_provider w d
          break_own w d actor
          under_lease w d do
            ev ← event_for w aborted ("aborted by " ⧺ actor)
            transition_and_notify w aborted (record ev { actor = actor }))
    Within-abort_loaded d actor h =
        search
          (
            frame_rules, same, Within-stop_provider, h, Within-break_own, Within-under_lease,
            Within-event_for, Within-transition_and_notify, enters,
          )
          depth 12

    pub Within-abort :
        (id actor : String)
        → ((d : Deployment) → f.Turns (the_row d))
        → ((h : String) → f.Admits (abort_call h))
        → Within w f (abort w id actor)
    unfolding abort
    Within-abort id actor k h = search (frame_rules, Within-load, k, Within-abort_loaded, h)

    module _ (deploys : (r : DeployRequest) → f.Admits (deploy_call r))
        (rolls : (r : DeployRequest) → f.Admits (rollback_call r))
        (shifts : (n : ℕ) → f.Admits (shift_call n)) (marks : f.Turns as_rollback) where
      Within-next_step :
          (cfg : AppEnv) (s : State) (x y : M (Unit {0}))
          → Within w f x
          → Within w f y
          → Within w f (next_step w cfg s x y)
      unfolding next_step
      Within-next_step cfg s x y hx hy =
          search
            (
              frame_rules, same, Within-enter, Within-blame, Within-handle_failure, rolls, shifts,
              enters, marks,
            )
            depth 9

      Within-run_steps_from :
          (cfg : AppEnv) (steps : List (State × M (Unit {0})))
          → All (λ s. Within w f s.1) steps
          → Within w f (run_steps w cfg steps)
      unfolding run_steps
      Within-run_steps_from cfg [] hs = Within-enter _
      Within-run_steps_from cfg ((s, x) ∷ steps) (hx, hs) =
          Within-next_step cfg s x _ hx (Within-run_steps_from cfg steps hs)

      pub Within-all_steps : (cfg : AppEnv) → Within w f (run_steps w cfg (all_steps w cfg))
      Within-all_steps cfg = Within-run_steps_from cfg (all_steps w cfg) (
        Within-preflight_step w f same cfg,
        (
          Within-await_gates w f same cfg.gates,
          (
            Within-deploy_step w f same cfg deploys shifts,
            (Within-verify_step w f same shifts cfg, (Within-promote_step w f same cfg, tt)),
          ),
        ),
      )

      pub Within-run :
          (id : String) → ((d : Deployment) → f.Turns (the_row d)) → Within w f (run w id)
      unfolding run
      Within-run id k = search (frame_rules, Within-load, k, Within-under_lease, Within-all_steps)
