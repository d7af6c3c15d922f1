-- ===== src/Store/Progress/Promises.antt =====
-- What holds over every sequence of calls, on any disk.
use dev_ops_pipeline_orchest.Prelude.{
  List, String, arith, false, inl, length, lookup, refl, some, true, ℕ, ◌<◌, ◌≡◌, ◌≤◌, string_eq,
  nat_eq,
}
use dev_ops_pipeline_orchest.Store.State.{State, can_transition, is_terminal, state_eq}
use dev_ops_pipeline_orchest.Store.State.Paths.{
  History, here, length-History, move, stuck_iff_terminal,
}
use dev_ops_pipeline_orchest.Store.Rows.{Deployment, OutboxEntry, err, stale_fence}
use dev_ops_pipeline_orchest.Store.Transactions.{Env, Platform, Store}
use dev_ops_pipeline_orchest.Store.Operations.{
  Calls, Op, acquire, approve, break_it, create, mark_lost, mark_sent, move_to, no_call, note_audit,
  note_sample, note_step, queue, release, renew, run_op, set_frozen, then_call, update,
}
use dev_ops_pipeline_orchest.Store.Leases.{check_fence}
use dev_ops_pipeline_orchest.Store.Outbox.{find_entry}
use dev_ops_pipeline_orchest.Store.Progress.{Advances}
use dev_ops_pipeline_orchest.Store.Progress.Parts.{Kept, fence_of}
use dev_ops_pipeline_orchest.Store.Progress.Steps.{Advances-refl, Advances-trans}
use dev_ops_pipeline_orchest.Store.Progress.Steps.Small.{
  append_audit-Goes, deliver-Goes, enqueue-Goes, fail_delivery-Goes, record_approval-Goes,
  record_sample-Goes, record_step-Goes, set_freeze-Goes,
}
use dev_ops_pipeline_orchest.Store.Progress.Steps.Large.{
  acquire_lease-Goes, break_lease-Goes, release_lease-Goes, renew_lease-Goes,
}
use dev_ops_pipeline_orchest.Store.Progress.Steps.Moves.{
  create_deployment-Goes, transition-Goes, update_deployment-Goes,
}

module _ (p : Platform) where
  run_op-Advances : (env : Env) (op : Op) (s : Store) → Advances p s.index (run_op p env op s).index
  unfolding run_op
  run_op-Advances env (acquire r holder node) s = (acquire_lease-Goes p env r holder node s).forth
  run_op-Advances env (renew r holder fence) s = (renew_lease-Goes p env r holder fence s).forth
  run_op-Advances env (release r holder) s = (release_lease-Goes p env r holder s).forth
  run_op-Advances env (break_it r actor) s = (break_lease-Goes p env r actor s).forth
  run_op-Advances env (create d) s = (create_deployment-Goes p env d s).forth
  run_op-Advances env (move_to id fence from to entry notes) s =
      (transition-Goes p env id fence from to entry notes s).forth
  run_op-Advances env (update d) s = (update_deployment-Goes p env d s).forth
  run_op-Advances env (queue n) s = (enqueue-Goes p env n s).forth
  run_op-Advances env (mark_sent id) s = (deliver-Goes p env id s).forth
  run_op-Advances env (mark_lost id cause) s = (fail_delivery-Goes p env id cause s).forth
  run_op-Advances env (note_step st) s = (record_step-Goes p env st s).forth
  run_op-Advances env (note_sample x) s = (record_sample-Goes p env x s).forth
  run_op-Advances env (note_audit x) s = (append_audit-Goes p env x s).forth
  run_op-Advances env (approve a) s = (record_approval-Goes p env a s).forth
  run_op-Advances env (set_frozen f) s = (set_freeze-Goes p env f s).forth

  pub Calls-Advances : {s s' : Store} → Calls p s s' → Advances p s.index s'.index
  Calls-Advances {s} no_call = Advances-refl p s.index
  Calls-Advances {s} {s'} (then_call env op rest) =
      Advances-trans p s.index (run_op p env op s).index s'.index (run_op-Advances env op s)
        (Calls-Advances rest)

  -- A fence token that is behind the resource's last one fails the fence check for every holder, at
  -- every time, after whatever calls follow.
  pub stale_for_good :
      {s s' : Store} (env : Env) (r holder : String) (fence : ℕ)
      → Calls p s s'
      → fence < fence_of r s.leases
      → check_fence env r holder fence s' ≡ err stale_fence
  unfolding check_fence fence_of
  stale_for_good {s} {s'} env r holder fence run h = ground (arith, (Calls-Advances run).fences r)

  -- A deployment's row is never lost, whatever is called, and its state moves along legal
  -- transitions, at most seven of them.
  pub rows_follow :
      {s s' : Store} (id : String) (d : Deployment)
      → Calls p s s'
      → lookup id s.deployments ≡ some d
      → (d' : Deployment) × (ts : List State) × (lookup id s'.deployments ≡ some d')
        × History d.state ts d'.state
        × (length ts ≤ 7)
  rows_follow id d run e =
      let (d', e', (i, ts, h)) = (Calls-Advances run).rows id d e in
      (d', ts, e', h, (length-History h).0)

  -- A deployment in a terminal state stays in it, whatever is called.
  pub terminal_for_good :
      {s s' : Store} (id : String) (d : Deployment)
      → Calls p s s'
      → lookup id s.deployments ≡ some d
      → is_terminal d.state ≡ true
      → (d' : Deployment) × (lookup id s'.deployments ≡ some d') × (d'.state ≡ d.state)
  terminal_for_good id d run e t =
      let (d', e', (i, ts, h)) = (Calls-Advances run).rows id d e in
      (d', e', stays h ((stuck_iff_terminal d.state).1 (inl t)))
    where
      stays :
          {a b : State} {ts : List State}
          → History a ts b
          → ((u : State) → can_transition a u ≡ false)
          → b ≡ a
      stays here k = refl
      stays (move {t = t} legal h) k = absurd (ground (arith, k t))

  -- A queued note is never lost, whatever is called: it keeps its payload, its notifier and its
  -- dedupe key, and once it is delivered it stays delivered.
  pub outbox_never_loses :
      {s s' : Store} (id : ℕ) (e : OutboxEntry)
      → Calls p s s'
      → find_entry id s.outbox ≡ some e
      → (e' : OutboxEntry) × (find_entry id s'.outbox ≡ some e') × Kept e e'
  outbox_never_loses id e run h = (Calls-Advances run).notes id e h
