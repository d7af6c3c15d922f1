-- ===== src/Engine/RunTests.antt =====
-- The theorems on the executor at concrete runs.
use dev_ops_pipeline_orchest.Prelude.{
  [], arith, insert, lookup, none, refl, some, true, ◌↔◌, ◌∷◌, ◌≡◌, ◌≢◌,
}
use dev_ops_pipeline_orchest.Store.State.{
  aborted, active, can_transition, requires_lease, succeeded,
}
use dev_ops_pipeline_orchest.Store.Rows.{Deployment, resource}
use dev_ops_pipeline_orchest.Store.Transactions.{commit_tx}
use dev_ops_pipeline_orchest.Engine.World.{
  World, ask, call, defer, done, emit, failure, guard, if_some, ignore, inconclusive_verdict,
  modify, on_error, out_of_polls, pure, run_others, the_dep, ◌>>=◌,
}
use dev_ops_pipeline_orchest.Config.Schema.{Gate, app_env, approval_gate}
use dev_ops_pipeline_orchest.Engine.Run.{
  abort, break_own, enter, load, next_step, run, run_steps, stop_provider, under_lease,
}
use dev_ops_pipeline_orchest.Engine.Reconcile.{reconcile}
use dev_ops_pipeline_orchest.Engine.Verify.{
  Criterion, VerifyPolicy, lower_is_better, no_sample, sampled,
}
use dev_ops_pipeline_orchest.Engine.Run.Outside.{
  no_rollback_asks_nothing, outside, reconcile_asks_nothing,
}
use dev_ops_pipeline_orchest.Engine.Failure.{handle_failure, is_blocked, is_inconclusive}
use dev_ops_pipeline_orchest.Store.Index.{put_step}
use dev_ops_pipeline_orchest.Engine.Events.{event_for, persist, transition_and_notify}
use dev_ops_pipeline_orchest.Engine.Gates.{
  approval_is_valid, check_freeze, needs_approval, wait_for_approval,
}
use dev_ops_pipeline_orchest.Engine.Rollback.{check_rollback_budget}
use dev_ops_pipeline_orchest.Engine.Verify.Live.{verify_now}
use dev_ops_pipeline_orchest.Engine.Steps.{
  act_on_verdict, after_deploy, check_budget, check_history, check_target, deploy_step,
  find_provider, is_blue_green, is_canary, moves_traffic, note_deploy, note_preflight,
  preflight_step, promote_step, read_current, save, verify_and_act, verify_step, version_of,
}
use dev_ops_pipeline_orchest.Store.Deployments.{
  get_deployment, moved, transition, transition_check, update_deployment, write_transition,
  write_update,
}
use dev_ops_pipeline_orchest.Store.Journal.{append_group, encode_group, encode_record}
use dev_ops_pipeline_orchest.Store.Leases.{acquire_lease, check_fence, get_lease, take_lease}
use dev_ops_pipeline_orchest.Store.Outbox.{enqueue_all}
use dev_ops_pipeline_orchest.Store.Queries.{count_rollbacks, list_deployments}
use dev_ops_pipeline_orchest.Store.Tables.{active_freeze, record_step}
use dev_ops_pipeline_orchest.Engine.Gates.Consent.{Consent, approval_is_valid-Consent, wait_ends}
use dev_ops_pipeline_orchest.Engine.Run.Order.{in_order}
use dev_ops_pipeline_orchest.Engine.Steps.Preflight.{Passed, preflight_establishes}
use dev_ops_pipeline_orchest.Engine.Within.Failure.{would_roll_back}
use dev_ops_pipeline_orchest.Engine.Run.Order.Runs.{run_persists_first}
use dev_ops_pipeline_orchest.Engine.Run.Success.{abort_success_is_stored, run_success_is_stored}
use dev_ops_pipeline_orchest.Engine.Fixtures.{
  at_start, calm_world, test_config, test_env, waiting_row,
}

run_done : (run calm_world "d1" at_start).0 ≡ done tt
unfolding app_env pure ◌>>=◌ ignore on_error if_some defer guard the_dep modify emit ask run_others
    call event_for persist transition_and_notify needs_approval check_freeze moves_traffic is_canary
    is_blue_green note_preflight find_provider check_target version_of read_current check_budget
    check_history save preflight_step note_deploy after_deploy deploy_step verify_now act_on_verdict
    verify_and_act verify_step promote_step enter next_step run_steps under_lease load run
    check_fence take_lease acquire_lease get_deployment moved transition_check write_transition
    transition write_update update_deployment active_freeze record_step commit_tx encode_record
    encode_group append_group list_deployments count_rollbacks requires_lease active can_transition
    put_step enqueue_all resource check_rollback_budget lookup insert
run_done = refl

run_success_is_stored_example :
    (d : Deployment) × (lookup "d1" (run calm_world "d1" at_start).1.store.deployments ≡ some d)
    × (d.state ≡ succeeded)
unfolding lookup
run_success_is_stored_example =
    run_success_is_stored calm_world "d1" waiting_row at_start refl refl run_done

abort_done : (abort calm_world "d1" "u1" at_start).0 ≡ done tt
unfolding pure ◌>>=◌ ignore on_error if_some defer guard the_dep modify emit ask run_others call
    event_for persist transition_and_notify under_lease load abort stop_provider break_own get_lease
    check_fence take_lease acquire_lease get_deployment moved transition_check write_transition
    transition commit_tx encode_record encode_group append_group requires_lease active
    can_transition enqueue_all resource lookup insert
abort_done = refl

abort_success_is_stored_example :
    (d : Deployment) × (lookup "d1" (abort calm_world "d1" "u1" at_start).1.store.deployments
      ≡ some d)
    × (d.state ≡ aborted)
unfolding lookup
abort_success_is_stored_example =
    abort_success_is_stored calm_world "d1" "u1" waiting_row at_start refl refl abort_done

run_persists_first_example : in_order (run calm_world "d1" at_start).1.trace ≡ true
unfolding in_order
run_persists_first_example = run_persists_first calm_world "d1" at_start refl

no_rollback_asks_nothing_example :
    outside (handle_failure calm_world test_env inconclusive_verdict at_start).1.trace ≡ outside []
unfolding would_roll_back is_blocked is_inconclusive
no_rollback_asks_nothing_example =
    no_rollback_asks_nothing calm_world test_env inconclusive_verdict at_start refl

reconcile_asks_nothing_example : outside (reconcile calm_world at_start).1.trace ≡ outside []
reconcile_asks_nothing_example = reconcile_asks_nothing calm_world at_start

abbrev peer_gate : Gate
peer_gate = record {
  kind = approval_gate;
  require_peer = true;
  roles = [];
  ttl = 30;
  deny = [];
  timezone = "";
}

approval_is_valid-Consent_example :
    (approval_is_valid test_config waiting_row peer_gate "u2" 20 ≡ true)
    ↔ Consent test_config waiting_row peer_gate "u2" 20
approval_is_valid-Consent_example =
    approval_is_valid-Consent test_config waiting_row peer_gate "u2" 20

wait_ends_example : (wait_for_approval calm_world 41 peer_gate at_start).0 ≢ failure out_of_polls
wait_ends_example = wait_ends calm_world 40 peer_gate at_start (λ k. omega arith) (omega arith)

abbrev errors_criterion : Criterion
errors_criterion = record {
  name = "errors";
  verifier = "fake";
  direction = lower_is_better;
  max = none;
  max_ratio = none;
  floor_value = 0;
}

abbrev strict_policy : VerifyPolicy
strict_policy = record {
  min_samples = 1;
  failure_threshold = 2;
  success_threshold = 1;
  max_inconclusive = 0;
  criteria = errors_criterion ∷ [];
}

-- a bake with a round that has its sample, and one that has none
abbrev sampling_world : World
sampling_world = record calm_world {
  bake_rounds =
      λ n d. some (λ c. sampled (record { value = 1; baseline = 2 })) ∷ some (λ c. no_sample) ∷ [];
}

preflight_done : (preflight_step calm_world test_env at_start).0 ≡ done tt
unfolding pure ◌>>=◌ ignore if_some guard the_dep modify ask run_others call check_freeze
    moves_traffic note_preflight find_provider check_target version_of read_current check_budget
    check_history save preflight_step write_update update_deployment active_freeze record_step
    commit_tx encode_record encode_group append_group count_rollbacks put_step check_rollback_budget
    lookup
preflight_done = refl

preflight_establishes_example :
    Passed calm_world test_env (preflight_step calm_world test_env at_start).1
preflight_establishes_example = preflight_establishes calm_world test_env at_start preflight_done
