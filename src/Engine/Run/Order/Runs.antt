-- ===== src/Engine/Run/Order/Runs.antt =====
-- A run does each thing outside behind the state that it belongs to.
use dev_ops_pipeline_orchest.Prelude.{All, List, String, [], not, refl, true, ◌&&◌, ◌==◌, ◌∷◌, ◌≡◌}
use dev_ops_pipeline_orchest.Store.Rows.{resource}
use dev_ops_pipeline_orchest.Store.State.{
  State, await_approval, deploying, preflight, promoting, verifying, state_eq,
}
use dev_ops_pipeline_orchest.Engine.Run.{all_steps, enter, next_step, run, run_steps, under_lease}
use dev_ops_pipeline_orchest.Engine.World.{M, Machine, Outcome, World, call, done, failure, ignore}
use dev_ops_pipeline_orchest.Engine.World.Frames.{
  Within, Within-guard, Within-ignore, Within-modify,
}
use dev_ops_pipeline_orchest.Engine.Run.Order.{
  InOrder, InPhase, fits, free, in_order, in_phase, kept, loose, order_frame, phase_frame,
  transition_and_notify-InPhase,
}
use dev_ops_pipeline_orchest.Config.Schema.{AppEnv}
use dev_ops_pipeline_orchest.Engine.Gates.{needs_approval}
use dev_ops_pipeline_orchest.Engine.Run.Order.Failures.{
  deploys-Admits, handle_failure-InOrder, shifts-Admits,
}
use dev_ops_pipeline_orchest.Engine.Within.Basics.{Within-await_gates, Within-event_for}
use dev_ops_pipeline_orchest.Engine.Within.Run.{
  Within-acquire, Within-blame, Within-load, Within-release,
}
use dev_ops_pipeline_orchest.Engine.Within.Steps.{
  Within-deploy_step, Within-preflight_step, Within-promote_step, Within-verify_step,
}
use dev_ops_pipeline_orchest.Engine.World.Triples.{
  Ends, Triple, Triple-bind, Triple-defer, Triple-fail, Triple-if, Triple-if_some, Triple-on_error,
  Triple-weaken,
}
use dev_ops_pipeline_orchest.Store.Leases.{release_lease}

module _ (w : World) where
  enter-InPhase : (s : State) → Triple InOrder (enter w s) (InPhase s) InOrder
  unfolding enter
  enter-InPhase s =
      Triple-bind _ _ (kept w _ (Within-event_for w (order_frame w) (free w) _ _))
        (transition_and_notify-InPhase w s)

  step_done :
      {s : State} {x : M (Unit {0})}
      → Within w (phase_frame w s) x
      → Triple (InPhase s) x InOrder InOrder
  step_done {s} {x} h = Triple-weaken x (in_phase w s x h) (λ m k. k) (λ m k. k.0) (λ m k. k)

  next_step-InOrder :
      (cfg : AppEnv) (s : State) (x y : M (Unit {0}))
      → Triple (InPhase s) x InOrder InOrder
      → Triple InOrder y InOrder InOrder
      → Triple InOrder (next_step w cfg s x y) InOrder InOrder
  unfolding next_step
  next_step-InOrder cfg s x y hx hy =
      Triple-if (s == await_approval && not (needs_approval cfg.gates)) _ _ hy (
        Triple-on_error _ _ _ (enter-InPhase s) (handle_failure-InOrder w cfg) (λ u.
          Triple-on_error _ _ _ hx
            (λ c.
              Triple-bind _ _ (kept w _ (Within-blame w (order_frame w) (free w) c))
                (handle_failure-InOrder w cfg))
            (λ v. hy)))

  run_steps-InOrder :
      (cfg : AppEnv) (steps : List (State × M (Unit {0})))
      → All (λ s. Triple (InPhase s.0) s.1 InOrder InOrder) steps
      → Triple InOrder (run_steps w cfg steps) InOrder InOrder
  unfolding run_steps
  run_steps-InOrder cfg [] hs = Triple-weaken _ (enter-InPhase _) (λ m k. k) (λ m k. k.0) (λ m k. k)
  run_steps-InOrder cfg ((s, x) ∷ steps) (hx, hs) =
      next_step-InOrder cfg s x _ hx (run_steps-InOrder cfg steps hs)

  all_steps-InOrder :
      (cfg : AppEnv) → Triple InOrder (run_steps w cfg (all_steps w cfg)) InOrder InOrder
  unfolding fits
  all_steps-InOrder cfg = run_steps-InOrder cfg (all_steps w cfg) (
    step_done (Within-preflight_step w (phase_frame w preflight) (loose w _) cfg),
    (
      step_done (Within-await_gates w (phase_frame w await_approval) (loose w _) cfg.gates),
      (
        step_done (
            Within-deploy_step w (phase_frame w deploying) (loose w _) cfg (deploys-Admits w)
              (shifts-Admits w deploying (λ n. refl))),
        (
          step_done (
              Within-verify_step w (phase_frame w verifying) (loose w _)
                (shifts-Admits w verifying (λ n. refl)) cfg),
          (step_done (Within-promote_step w (phase_frame w promoting) (loose w _) cfg), tt),
        ),
      ),
    ),
  )

  run-InOrder : (id : String) → Triple InOrder (run w id) InOrder InOrder
  unfolding run under_lease order_frame
  run-InOrder id =
      Triple-bind _ _ (kept w _ (Within-load w (order_frame w) (free w) id (λ d. tt))) λ d.
        Triple-bind _ _ (kept w _ (Within-guard w _ _)) λ u.
          Triple-if_some _ _ _
            (λ cfg.
              Triple-bind _ _ (kept w _ (Within-acquire w (order_frame w) (free w) _ _ _)) λ fence.
                Triple-bind _ _ (kept w _ (Within-modify w _ tt)) λ v.
                  Triple-defer _ _ (releases (resource d) d.id) (releases (resource d) d.id)
                    (all_steps-InOrder cfg))
            (Triple-fail _ (λ m h. h))
    where
      releases :
          (r h : String) (m : Machine)
          → InOrder m
          → InOrder (ignore (call w (λ env. release_lease w.platform env r h)) m).1
      releases r h m k = (Within-ignore w _ (Within-release w (order_frame w) (free w) _ _)).at m k

  -- Where what was done before a run stands in order, so it does behind it: the provider is asked to
  -- deploy only while DEPLOYING is the state that was persisted last, to go back only while
  -- ROLLING_BACK is, and to shift traffic only while DEPLOYING, VERIFYING or ROLLING_BACK is.
  pub run_persists_first :
      (id : String) (m : Machine) → in_order m.trace ≡ true → in_order (run w id m).1.trace ≡ true
  unfolding Ends
  run_persists_first id m h = either (run w id m) ((run-InOrder id).at m h)
    where
      either :
          (r : Outcome (Unit {0}) × Machine) → Ends InOrder InOrder r → in_order r.1.trace ≡ true
      either (done u, n) k = k
      either (failure c, n) k = k
