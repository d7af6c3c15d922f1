-- ===== src/Engine/Within/Basics.antt =====
-- Every operation of a run acts through the store's methods and the effects that it names.
use dev_ops_pipeline_orchest.Prelude.{List, Option, String, [], refl, suc, zero, ℕ, ◌∷◌}
use dev_ops_pipeline_orchest.Store.State.{State}
use dev_ops_pipeline_orchest.Engine.World.{Cause, Event, M, World, call, entered}
use dev_ops_pipeline_orchest.Engine.Steps.{save}
use dev_ops_pipeline_orchest.Engine.World.Frames.{
  EffectFrame, Steady, Within, Within-bind, Within-call, Within-emit, Within-fail, Within-pure,
  frame_rules,
}
use dev_ops_pipeline_orchest.Engine.Events.{
  event_for, failed_event, inconclusive_event, page_event, persist, record_error,
  transition_and_notify, try_move, unsafe_rollback_event,
}
use dev_ops_pipeline_orchest.Config.Schema.{
  Gate, GateType, approval_gate, freeze_gate, other_gate, schedule_gate,
}
use dev_ops_pipeline_orchest.Engine.Gates.{
  await_gates, check_freeze, check_gate, check_schedule, poll, wait_for_approval,
}
use dev_ops_pipeline_orchest.Store.Deployments.{transition, update_deployment}
use dev_ops_pipeline_orchest.Store.Operations.{move_to, note_step, run_op, update}
use dev_ops_pipeline_orchest.Store.Rows.{AuditEntry, Deployment, OutboxEntry, Step}
use dev_ops_pipeline_orchest.Store.Tables.{record_step}

module _ (w : World) (f : EffectFrame w)
    (same : (g : Deployment → Deployment) → Steady g → f.Turns g) where
  pub Within-event_for : (s : State) (reason : String) → Within w f (event_for w s reason)
  unfolding event_for
  Within-event_for s reason = search frame_rules

  pub Within-failed_event : (c : Cause) → Within w f (failed_event w c)
  unfolding failed_event
  Within-failed_event c = Within-event_for _ _

  pub Within-inconclusive_event : (c : Cause) → Within w f (inconclusive_event w c)
  unfolding inconclusive_event
  Within-inconclusive_event c = search (frame_rules, Within-event_for)

  pub Within-page_event : (c : Cause) → Within w f (page_event w c)
  unfolding page_event
  Within-page_event c = search (frame_rules, Within-event_for)

  pub Within-unsafe_rollback_event : (c r : Cause) → Within w f (unsafe_rollback_event w c r)
  unfolding unsafe_rollback_event
  Within-unsafe_rollback_event c r = search (frame_rules, Within-page_event)

  pub Within-transition :
      (id : String) (fence : ℕ) (from to : State) (e : Option AuditEntry) (ns : List OutboxEntry)
      → Within w f (call w (λ env. transition w.platform env id fence from to e ns))
  unfolding run_op
  Within-transition id fence from to e ns =
      Within-call w (λ _. move_to id fence from to e ns) _ (λ env s. refl)

  Within-update : (d : Deployment) → Within w f (call w (λ env. update_deployment w.platform env d))
  unfolding run_op
  Within-update d = Within-call w (λ _. update d) _ (λ env s. refl)

  pub Within-record_step : (st : Step) → Within w f (call w (λ env. record_step w.platform env st))
  unfolding run_op
  Within-record_step st = Within-call w (λ _. note_step st) _ (λ env s. refl)

  Within-persist :
      (to : State) (reason payload : String)
      → f.Admits (entered to)
      → Within w f (persist w to reason payload)
  unfolding persist
  Within-persist to reason payload h =
      search (frame_rules, Within-emit, Within-transition, same) depth 8

  pub Within-transition_and_notify :
      (to : State) (ev : Event) → f.Admits (entered to) → Within w f (transition_and_notify w to ev)
  unfolding transition_and_notify
  Within-transition_and_notify to ev h = search (frame_rules, Within-persist)

  pub Within-try_move :
      (to : State) (make : M Event)
      → f.Admits (entered to)
      → Within w f make
      → Within w f (try_move w to make)
  unfolding try_move
  Within-try_move to make h hm = search (frame_rules, Within-transition_and_notify)

  pub Within-record_error : (c : Cause) → Within w f (record_error w c)
  unfolding record_error
  Within-record_error c = search (frame_rules, Within-update, same)

  pub Within-save : (g : Deployment → Deployment) → Steady g → Within w f (save w g)
  unfolding save
  Within-save g h = search (frame_rules, Within-update, same)

  pub Within-check_freeze : Within w f (check_freeze w)
  unfolding check_freeze
  Within-check_freeze = search (frame_rules)

  Within-poll : (g : Gate) (x : M (Unit {0})) → Within w f x → Within w f (poll w g x)
  unfolding poll
  Within-poll g x h = search frame_rules depth 12

  Within-wait_for_approval : (n : ℕ) (g : Gate) → Within w f (wait_for_approval w n g)
  unfolding wait_for_approval
  Within-wait_for_approval zero g = Within-fail w _
  Within-wait_for_approval (suc n) g = Within-poll g _ (Within-wait_for_approval n g)

  Within-check_gate : (k : GateType) (g : Gate) → Within w f (check_gate w k g)
  unfolding check_gate check_schedule
  Within-check_gate schedule_gate g = search frame_rules
  Within-check_gate freeze_gate g = Within-check_freeze
  Within-check_gate approval_gate g = search (frame_rules, Within-wait_for_approval)
  Within-check_gate other_gate g = Within-pure w tt

  pub Within-await_gates : (gs : List Gate) → Within w f (await_gates w gs)
  unfolding await_gates
  Within-await_gates [] = Within-pure w tt
  Within-await_gates (g ∷ gs) =
      Within-bind w _ _ (Within-check_gate g.kind g) (λ _. Within-await_gates gs)
