-- ===== src/Engine/Run/Order/Failures.antt =====
-- The handling of a failure rolls back behind ROLLING_BACK only.
use dev_ops_pipeline_orchest.Prelude.{inl, inr, not, refl, some, true, ℕ, ◌≡◌, ◌⊎◌}
use dev_ops_pipeline_orchest.Store.State.{State, deploying, rolling_back}
use dev_ops_pipeline_orchest.Store.Rows.{Deployment}
use dev_ops_pipeline_orchest.Engine.Rollback.{Plan, Refusal}
use dev_ops_pipeline_orchest.Engine.Failure.{
  after_deploy_back, execute_rollback, follow, give_up, handle_failure, is_blocked, is_inconclusive,
  plan_and_roll_back, respond,
}
use dev_ops_pipeline_orchest.Engine.World.{
  Cause, DeployReply, DeployRequest, Event, M, World, deploy_call, deploy_refused, deployed_as,
  rollback_call, shift_call,
}
use dev_ops_pipeline_orchest.Engine.World.Frames.{Within, Within-look, Within-the_dep}
use dev_ops_pipeline_orchest.Engine.Run.Order.{
  InOrder, InPhase, enters, fits, free, in_phase, kept, loose, order_frame, out_of, phase,
  phase_frame, transition_and_notify-InPhase,
}
use dev_ops_pipeline_orchest.Config.Schema.{AppEnv}
use dev_ops_pipeline_orchest.Engine.Within.Basics.{
  Within-event_for, Within-failed_event, Within-inconclusive_event, Within-page_event,
  Within-record_error, Within-unsafe_rollback_event,
}
use dev_ops_pipeline_orchest.Engine.Within.Failure.{
  Within-deploy_back, Within-finish_rollback, Within-give_up, Within-refresh_state,
  Within-shift_back,
}
use dev_ops_pipeline_orchest.Engine.Within.Steps.{Within-find_provider}
use dev_ops_pipeline_orchest.Engine.World.Triples.{Triple, Triple-bind, Triple-if, Triple-on_error}

module _ (w : World) where
  rolls-Admits : (r : DeployRequest) → (phase_frame w rolling_back).Admits (rollback_call r)
  unfolding phase_frame fits phase
  rolls-Admits r = record { here = refl; silent = λ es. refl }

  pub deploys-Admits : (r : DeployRequest) → (phase_frame w deploying).Admits (deploy_call r)
  unfolding phase_frame fits phase
  deploys-Admits r = record { here = refl; silent = λ es. refl }

  pub shifts-Admits :
      (s : State)
      → ((n : ℕ) → fits (some s) (shift_call n) ≡ true)
      → (n : ℕ) → (phase_frame w s).Admits (shift_call n)
  unfolding phase_frame phase
  shifts-Admits s h n = record { here = h n; silent = λ es. refl }

  give_up-InOrder :
      (to : State) (make : M Event) (c : Cause)
      → Within w (order_frame w) make
      → Triple InOrder (give_up w to make c) InOrder InOrder
  give_up-InOrder to make c h =
      kept w _ (Within-give_up w (order_frame w) (free w) (enters w) to make c h)

  after_deploy_back-InOrder :
      (cfg : AppEnv) (p : Plan) (c : Cause) (r : DeployReply)
      → Triple (InPhase rolling_back) (after_deploy_back w cfg p c r) InOrder InOrder
  unfolding after_deploy_back fits order_frame
  after_deploy_back-InOrder cfg p c (deploy_refused output) =
      out_of w _ _ (give_up-InOrder _ _ _ (Within-page_event w (order_frame w) (free w) _))
  after_deploy_back-InOrder cfg p c (deployed_as handle output) =
      Triple-bind _ _
        (in_phase w _ _ (
          Within-shift_back w (phase_frame w rolling_back) (loose w _) cfg
            (shifts-Admits rolling_back (λ n. refl))))
        λ r.
          Triple-if _ _ _
            (out_of w _ _ (give_up-InOrder _ _ _ (Within-page_event w (order_frame w) (free w) _)))
            (out_of w _ _
              (kept w _ (Within-finish_rollback w (order_frame w) (free w) (enters w) p c tt)))

  execute_rollback-InOrder :
      (cfg : AppEnv) (p : Plan) (c : Cause)
      → Triple InOrder (execute_rollback w cfg p c) InOrder InOrder
  unfolding execute_rollback
  execute_rollback-InOrder cfg p c =
      Triple-bind _ _ (kept w _ (Within-event_for w (order_frame w) (free w) _ _)) λ ev.
        Triple-bind _ _ (transition_and_notify-InPhase w rolling_back ev) λ u.
          Triple-on_error _ _ _
            (in_phase w _ _ (Within-find_provider w (phase_frame w rolling_back) (loose w _) cfg))
            (λ x. give_up-InOrder _ _ _ (Within-page_event w (order_frame w) (free w) _))
            λ v.
              Triple-bind _ _
                (in_phase w _ _ (
                  Within-deploy_back w (phase_frame w rolling_back) (loose w _) cfg p rolls-Admits))
                (after_deploy_back-InOrder cfg p c)

  follow-InOrder :
      (cfg : AppEnv) (c : Cause) (p : Plan ⊎ Refusal)
      → Triple InOrder (follow w cfg c p) InOrder InOrder
  unfolding follow
  follow-InOrder cfg c (inl p) = execute_rollback-InOrder cfg p c
  follow-InOrder cfg c (inr r) =
      give_up-InOrder _ _ _ (Within-unsafe_rollback_event w (order_frame w) (free w) _ _)

  respond-InOrder :
      (cfg : AppEnv) (c : Cause) (d : Deployment)
      → Triple InOrder (respond w cfg c d) InOrder InOrder
  unfolding respond plan_and_roll_back
  respond-InOrder cfg c d =
      Triple-if d.is_rollback _ _
        (give_up-InOrder _ _ _ (Within-page_event w (order_frame w) (free w) _))
        (Triple-if (is_blocked c) _ _
          (give_up-InOrder _ _ _ (Within-failed_event w (order_frame w) (free w) _))
          (Triple-if (is_inconclusive c) _ _
            (give_up-InOrder _ _ _ (Within-inconclusive_event w (order_frame w) (free w) _))
            (Triple-if (not cfg.rollback.automatic) _ _
              (give_up-InOrder _ _ _ (Within-failed_event w (order_frame w) (free w) _))
              (Triple-bind _ _ (kept w _ (Within-the_dep w))
                λ x. Triple-bind _ _ (kept w _ (Within-look w _)) (follow-InOrder cfg c)))))

  pub handle_failure-InOrder :
      (cfg : AppEnv) (c : Cause) → Triple InOrder (handle_failure w cfg c) InOrder InOrder
  unfolding handle_failure
  handle_failure-InOrder cfg c =
      Triple-bind _ _ (kept w _ (Within-refresh_state w (order_frame w) (free w) (enters w))) λ u.
        Triple-bind _ _ (kept w _ (Within-record_error w (order_frame w) (free w) c))
          λ v. Triple-bind _ _ (kept w _ (Within-the_dep w)) (respond-InOrder cfg c)
