-- ===== src/Store/Durability/TableSteps.antt =====
-- Steps, samples, approvals, freezes and audit entries keep the store sound.
use dev_ops_pipeline_orchest.Prelude.{Option-cases, inl, inr, lookup, refl, ◌≡◌, string_eq, nat_eq}
use dev_ops_pipeline_orchest.Store.Rows.{
  Approval, AuditEntry, Deployment, Freeze, HealthSample, Step,
}
use dev_ops_pipeline_orchest.Store.Index.{Index, apply_record, put_step}
use dev_ops_pipeline_orchest.Store.Transactions.{Env, Platform, Store, run_after}
use dev_ops_pipeline_orchest.Store.Audit.{append_audit}
use dev_ops_pipeline_orchest.Store.Tables.{
  grant, record_approval, record_sample, record_step, set_freeze, write_approval,
}
use dev_ops_pipeline_orchest.Store.Journal.{apply_all, durable}
use dev_ops_pipeline_orchest.Store.Durability.Sound.{
  IsConsistent, IsSound, Leaves, Leaves-same, commit_tx-IsSound, leaves_rules,
}

-- Only the deployments, their keys, the leases and the outbox matter to consistency.
same-IsConsistent :
    (i j : Index)
    → i.deployments ≡ j.deployments
    → i.by_idem_key ≡ j.by_idem_key
    → i.leases ≡ j.leases
    → i.outbox ≡ j.outbox
    → i.outbox_seq ≡ j.outbox_seq
    → IsConsistent i
    → IsConsistent j
same-IsConsistent i j e1 e2 e3 e4 e5 h = record {
  row_id = λ id d q. h.row_id id d (rw e1 q);
  row_key = λ id d q. rw (← e2) (h.row_key id d (rw e1 q));
  lease_row = λ r l q. h.lease_row r l (rw e3 q);
  ids = rw (← e4, ← e5) h.ids;
}

module _ (p : Platform) (env : Env) (taken : env.disk ≡ durable) where
  pub record_step-IsSound :
      (st : Step) (s : Store) → IsSound p s → Leaves p (record_step p env st s)
  unfolding record_step apply_all apply_record run_after put_step
  record_step-IsSound st s h =
      commit_tx-IsSound p env _ _ s taken h
        (record { plain = (tt, tt); agrees = λ q le. (q, le, refl) })
        (same-IsConsistent s.index _ refl refl refl refl refl h.consistent)

  pub record_sample-IsSound :
      (x : HealthSample) (s : Store) → IsSound p s → Leaves p (record_sample p env x s)
  unfolding record_sample apply_all apply_record run_after
  record_sample-IsSound x s h =
      commit_tx-IsSound p env _ _ s taken h
        (record { plain = (tt, tt); agrees = λ q le. (q, le, refl) })
        (same-IsConsistent s.index _ refl refl refl refl refl h.consistent)

  pub append_audit-IsSound :
      (e : AuditEntry) (s : Store) → IsSound p s → Leaves p (append_audit p env e s)
  unfolding append_audit apply_all apply_record run_after
  append_audit-IsSound e s h =
      commit_tx-IsSound p env _ _ s taken h
        (record { plain = (tt, tt); agrees = λ q le. (q, le, refl) })
        (same-IsConsistent s.index _ refl refl refl refl refl h.consistent)

  pub set_freeze-IsSound : (f : Freeze) (s : Store) → IsSound p s → Leaves p (set_freeze p env f s)
  unfolding set_freeze apply_all apply_record run_after
  set_freeze-IsSound f s h =
      commit_tx-IsSound p env _ _ s taken h
        (record { plain = (tt, (tt, tt)); agrees = λ q le. (q, le, refl) })
        (same-IsConsistent s.index _ refl refl refl refl refl h.consistent)

  write_approval-IsSound :
      (a : Approval) (d : Deployment) (s : Store)
      → IsSound p s
      → Leaves p (write_approval p env a d s)
  unfolding write_approval apply_all apply_record run_after
  write_approval-IsSound a d s h =
      commit_tx-IsSound p env _ _ s taken h
        (record { plain = (tt, (tt, tt)); agrees = λ q le. (q, le, refl) })
        (same-IsConsistent s.index _ refl refl refl refl refl h.consistent)

  grant-IsSound : (a : Approval) (s : Store) → IsSound p s → Leaves p (grant p env a s)
  unfolding grant
  grant-IsSound a s h = elim (Option-cases (lookup a.deployment_id s.deployments)) [
    | inl e ↦ rw (e, grant) (Leaves-same p _ s h)
    | inr (d, e) ↦ rw (e, grant) (write_approval-IsSound a d s h)
  ]

  pub record_approval-IsSound :
      (a : Approval) (s : Store) → IsSound p s → Leaves p (record_approval p env a s)
  unfolding record_approval
  record_approval-IsSound a s h = search (leaves_rules, grant-IsSound)
