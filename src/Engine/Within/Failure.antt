-- ===== src/Engine/Within/Failure.antt =====
-- The handling of a failure: only one branch deploys.
use dev_ops_pipeline_orchest.Prelude.{Bool, arith, false, inl, inr, not, ℕ, ◌&&◌, ◌≡◌, ◌⊎◌}
use dev_ops_pipeline_orchest.Store.State.{State}
use dev_ops_pipeline_orchest.Store.Rows.{Deployment}
use dev_ops_pipeline_orchest.Engine.Rollback.{Plan, Refusal}
use dev_ops_pipeline_orchest.Engine.Failure.{
  after_deploy_back, deploy_back, execute_rollback, finish_rollback, follow, give_up,
  handle_failure, is_blocked, is_inconclusive, note_rollback, plan_and_roll_back, refresh_state,
  respond, shift_back,
}
use dev_ops_pipeline_orchest.Engine.World.{
  Cause, DeployReply, DeployRequest, Event, M, World, as_rollback, deploy_refused, deployed_as,
  entered, rollback_call, shift_call,
}
use dev_ops_pipeline_orchest.Engine.World.Frames.{
  EffectFrame, Steady, Within, Within-emit, Within-when, frame_rules,
}
use dev_ops_pipeline_orchest.Config.Schema.{AppEnv}
use dev_ops_pipeline_orchest.Engine.Within.Basics.{
  Within-event_for, Within-failed_event, Within-inconclusive_event, Within-page_event,
  Within-record_error, Within-record_step, Within-transition_and_notify, Within-try_move,
  Within-unsafe_rollback_event,
}
use dev_ops_pipeline_orchest.Engine.Within.Steps.{Within-find_provider, Within-shift_to}

-- the conditions under which handleFailure gets to its last branch
unfoldable pub would_roll_back : AppEnv → Cause → Deployment → Bool
would_roll_back cfg cause d =
    not d.is_rollback
    && (not (is_blocked cause) && (not (is_inconclusive cause) && cfg.rollback.automatic))

module _ (w : World) (f : EffectFrame w)
    (same : (g : Deployment → Deployment) → Steady g → f.Turns g) where
  pub Within-deploy_back :
      (cfg : AppEnv) (p : Plan)
      → ((r : DeployRequest) → f.Admits (rollback_call r))
      → Within w f (deploy_back w cfg p)
  unfolding deploy_back note_rollback
  Within-deploy_back cfg p rolls =
      search (frame_rules, same, Within-emit, rolls, Within-record_step) depth 12

  pub Within-shift_back :
      (cfg : AppEnv) → ((n : ℕ) → f.Admits (shift_call n)) → Within w f (shift_back w cfg)
  unfolding shift_back
  Within-shift_back cfg shifts = search (frame_rules, Within-shift_to, same, shifts)

module _ (w : World) (f : EffectFrame w)
    (same : (g : Deployment → Deployment) → Steady g → f.Turns g)
    (enters : (s : State) → f.Admits (entered s)) where
  pub Within-give_up :
      (to : State) (make : M Event) (c : Cause) → Within w f make → Within w f (give_up w to make c)
  unfolding give_up
  Within-give_up to make c h = search (frame_rules, same, Within-try_move, enters)

  pub Within-refresh_state : Within w f (refresh_state w)
  unfolding refresh_state
  Within-refresh_state = search (frame_rules, same)

  pub Within-finish_rollback :
      (p : Plan) (c : Cause) → f.Turns as_rollback → Within w f (finish_rollback w p c)
  unfolding finish_rollback
  Within-finish_rollback p c marks =
      search (frame_rules, same, Within-event_for, Within-transition_and_notify, enters, marks)
        depth 9

  module _ (rolls : (r : DeployRequest) → f.Admits (rollback_call r))
      (shifts : (n : ℕ) → f.Admits (shift_call n)) (marks : f.Turns as_rollback) where
    Within-after_deploy_back :
        (cfg : AppEnv) (p : Plan) (c : Cause) (r : DeployReply)
        → Within w f (after_deploy_back w cfg p c r)
    unfolding after_deploy_back
    Within-after_deploy_back cfg p c (deploy_refused output) =
        search (same, Within-give_up, Within-page_event)
    Within-after_deploy_back cfg p c (deployed_as handle output) =
        search
          (
            frame_rules, same, Within-shift_back, shifts, Within-give_up, Within-page_event,
            Within-finish_rollback,
          )
          depth 9

    Within-execute_rollback :
        (cfg : AppEnv) (p : Plan) (c : Cause) → Within w f (execute_rollback w cfg p c)
    unfolding execute_rollback
    Within-execute_rollback cfg p c =
        search
          (
            frame_rules, same, Within-event_for, Within-transition_and_notify, enters,
            Within-find_provider, Within-give_up, Within-page_event, Within-deploy_back,
            Within-after_deploy_back,
          )
          depth 12

    Within-follow : (cfg : AppEnv) (c : Cause) (p : Plan ⊎ Refusal) → Within w f (follow w cfg c p)
    unfolding follow
    Within-follow cfg c (inl p) = Within-execute_rollback cfg p c
    Within-follow cfg c (inr r) = search (same, Within-give_up, Within-unsafe_rollback_event)

    Within-plan_and_roll_back : (cfg : AppEnv) (c : Cause) → Within w f (plan_and_roll_back w cfg c)
    unfolding plan_and_roll_back
    Within-plan_and_roll_back cfg c = search (frame_rules, Within-follow)

    pub Within-respond :
        (cfg : AppEnv) (c : Cause) (d : Deployment) → Within w f (respond w cfg c d)
    unfolding respond
    Within-respond cfg c d =
        search
          (
            frame_rules, same, Within-give_up, Within-page_event, Within-failed_event,
            Within-inconclusive_event, Within-plan_and_roll_back,
          )
          depth 9

    pub Within-handle_failure : (cfg : AppEnv) (c : Cause) → Within w f (handle_failure w cfg c)
    unfolding handle_failure
    Within-handle_failure cfg c =
        search (frame_rules, same, Within-refresh_state, Within-record_error, Within-respond) depth
          9

  -- Where the last branch is not reached, no effect but the moves is asked for.
  pub Within-settle_calm :
      (cfg : AppEnv) (c : Cause) (d : Deployment)
      → would_roll_back cfg c d ≡ false
      → Within w f (respond w cfg c d)
  unfolding respond would_roll_back
  Within-settle_calm cfg c d h =
      Within-when w d.is_rollback _ _ (λ _. search (same, Within-give_up, Within-page_event))
        λ e1.
          Within-when w (is_blocked c) _ _ (λ _. search (same, Within-give_up, Within-failed_event))
            λ e2.
              Within-when w (is_inconclusive c) _ _
                (λ _. search (same, Within-give_up, Within-inconclusive_event))
                λ e3.
                  Within-when w (not cfg.rollback.automatic) _ _
                    (λ _. search (same, Within-give_up, Within-failed_event))
                    λ e4. absurd (ground arith)
