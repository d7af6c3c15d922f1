-- ===== src/Store/Durability/Reopen.antt =====
-- Opening the file again gives the store back, whatever was called before.
use dev_ops_pipeline_orchest.Prelude.{[], arith, lookup-nil, refl, some, ℕ, ◌++◌, ◌≡◌, ◌≤◌}
use dev_ops_pipeline_orchest.Store.Rows.{Deployment, Duration, Lease, ok}
use dev_ops_pipeline_orchest.Store.Journal.{Bytes, IsCodec, apply_all, durable}
use dev_ops_pipeline_orchest.Store.Journal.Recovery.{Tail, nothing_yet, opened, replay-Written}
use dev_ops_pipeline_orchest.Store.Index.{apply_record, empty_index}
use dev_ops_pipeline_orchest.Store.Transactions.{Env, Platform, Store, open_store}
use dev_ops_pipeline_orchest.Store.Operations.{
  Allowed, Op, Runs, acquire, approve, break_it, call, create, done, empty_store, mark_lost,
  mark_sent, move_to, note_audit, note_sample, note_step, queue, release, renew, run_op, set_frozen,
  update,
}
use dev_ops_pipeline_orchest.Store.Durability.{with_seq}
use dev_ops_pipeline_orchest.Store.Durability.Sound.{IsSound}
use dev_ops_pipeline_orchest.Store.Durability.LeaseSteps.{
  acquire_lease-IsSound, break_lease-IsSound, release_lease-IsSound, renew_lease-IsSound,
}
use dev_ops_pipeline_orchest.Store.Durability.TableSteps.{
  append_audit-IsSound, record_approval-IsSound, record_sample-IsSound, record_step-IsSound,
  set_freeze-IsSound,
}
use dev_ops_pipeline_orchest.Store.Durability.NoteOps.{
  deliver-IsSound, enqueue-IsSound, fail_delivery-IsSound,
}
use dev_ops_pipeline_orchest.Store.Durability.RowSteps.{create_deployment-IsSound}
use dev_ops_pipeline_orchest.Store.Durability.MoveSteps.{
  transition-IsSound, update_deployment-IsSound,
}

module _ (p : Platform) where
  run_op-IsSound :
      (env : Env) (op : Op) (s : Store)
      → env.disk ≡ durable
      → Allowed op s
      → IsSound p s
      → IsSound p (run_op p env op s)
  unfolding run_op
  run_op-IsSound env (acquire r holder node) s e k h =
      (acquire_lease-IsSound p env e r holder node s h).sound
  run_op-IsSound env (renew r holder fence) s e k h =
      (renew_lease-IsSound p env e r holder fence s h).sound
  run_op-IsSound env (release r holder) s e k h = (release_lease-IsSound p env e r holder s h).sound
  run_op-IsSound env (break_it r actor) s e k h = (break_lease-IsSound p env e r actor s h).sound
  run_op-IsSound env (create d) s e k h = (create_deployment-IsSound p env e d s h).sound
  run_op-IsSound env (move_to id fence from to entry notes) s e k h =
      (transition-IsSound p env e id fence from to entry notes s h).sound
  run_op-IsSound env (update d) s e k h = (update_deployment-IsSound p env e d s k h).sound
  run_op-IsSound env (queue n) s e k h = (enqueue-IsSound p env e n s h).sound
  run_op-IsSound env (mark_sent id) s e k h = (deliver-IsSound p env e id s h).sound
  run_op-IsSound env (mark_lost id cause) s e k h =
      (fail_delivery-IsSound p env e id cause s h).sound
  run_op-IsSound env (note_step st) s e k h = (record_step-IsSound p env e st s h).sound
  run_op-IsSound env (note_sample x) s e k h = (record_sample-IsSound p env e x s h).sound
  run_op-IsSound env (note_audit x) s e k h = (append_audit-IsSound p env e x s h).sound
  run_op-IsSound env (approve a) s e k h = (record_approval-IsSound p env e a s h).sound
  run_op-IsSound env (set_frozen f) s e k h = (set_freeze-IsSound p env e f s h).sound

  pub Runs-IsSound : {s s' : Store} → Runs p s s' → IsSound p s → IsSound p s'
  Runs-IsSound done h = h
  Runs-IsSound (call env op e k rest) h = Runs-IsSound rest (run_op-IsSound env op _ e k h)

  pub empty_store-IsSound : (ttl : Duration) → IsSound p (empty_store ttl)
  unfolding apply_all
  empty_store-IsSound ttl = record {
    on_disk = record {
      log = [];
      on_file = record { committed = nothing_yet };
      lag = 0;
      lag_le = omega arith;
      replayed = refl;
    };
    consistent = record {
      row_id = λ id d e. ground (arith, lookup-nil {V = Deployment} id);
      row_key = λ id d e. ground (arith, lookup-nil {V = Deployment} id);
      lease_row = λ r l e. ground (arith, lookup-nil {V = Lease} r);
      ids = omega arith;
    };
  }

  -- The store that opening a file gives: the same index and file, but for the counter of ids.
  abbrev pub reopened : Duration → ℕ → Store → Store
  reopened ttl q s = record {
    index = with_seq q s.index;
    lease_ttl = ttl;
    journal = record { file = s.journal.file; seq = s.journal.seq; syncs = 0; written = 0 };
  }

  -- After any sequence of calls on a new store, on disks that take every group, where UpdateDeployment
  -- is called with the stored idempotency key: opening the file again, with nothing or with a group
  -- that was cut short behind it, succeeds and gives the index and the file of the store, but that
  -- the counter of outbox ids may be lower. The codec decodes what it encodes.
  pub open_store-Runs :
      (ttl ttl' : Duration) (s : Store) (t : Bytes)
      → IsCodec p.codec
      → Runs p (empty_store ttl) s
      → Tail p.codec t
      → (q : ℕ) × (q ≤ s.outbox_seq)
        × (open_store p ttl' (opened (s.journal.file ++ t)) ≡ some (ok (reopened ttl' q s)))
  unfolding open_store
  open_store-Runs ttl ttl' s t good run tail =
      let h = (Runs-IsSound run (empty_store-IsSound ttl)).on_disk in
      (
        h.lag,
        h.lag_le,
        rw
            (
              replay-Written p.codec good apply_record empty_index (with_seq h.lag s.index) t
                  h.on_file.committed tail h.replayed,
              open_store,
            )
            refl,
      )
