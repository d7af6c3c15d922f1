-- ===== src/Store/Progress/Steps/Small.antt =====
-- Steps, samples, approvals, freezes, audit entries, leases and notes.
use dev_ops_pipeline_orchest.Prelude.{
  Option-cases, String, [], if◌then◌else◌, inl, inr, lookup, refl, some, subst, sym, ℕ, ◌+◌, ◌==◌,
  ◌∙◌, ◌∷◌, ◌≡◌, string_eq, nat_eq,
}
use dev_ops_pipeline_orchest.Store.Rows.{
  Approval, AuditEntry, Freeze, HealthSample, OutboxEntry, Step, approval, delivered, freeze,
}
use dev_ops_pipeline_orchest.Store.Index.{put_step, slice}
use dev_ops_pipeline_orchest.Store.Transactions.{Env, Platform, Store, run_after}
use dev_ops_pipeline_orchest.Store.Audit.{append_audit}
use dev_ops_pipeline_orchest.Store.Tables.{
  approval_entry, freeze_entry, grant, has_approved, record_approval, record_sample, record_step,
  set_freeze, write_approval,
}
use dev_ops_pipeline_orchest.Store.Outbox.{
  deliver, enqueue, enqueue_tx, fail_delivery, find_entry, mark_delivered, mark_failed,
  update_outbox, write_state,
}
use dev_ops_pipeline_orchest.Store.Durability.NoteOps.{find_entry-id}
use dev_ops_pipeline_orchest.Store.Progress.Parts.{
  Fences-refl, Kept, Keys-refl, Log-refl, Notes-append, Notes-set_entry, Rows-refl,
}
use dev_ops_pipeline_orchest.Store.Progress.Steps.{
  Advances-refl, Goes, Goes-if, Goes-same, commit_tx-Goes, logged, same_index,
}
use dev_ops_pipeline_orchest.Store.Durability.NoteSteps.{at_seq}

module _ (p : Platform) (env : Env) where
  abbrev stamped : Freeze → Freeze
  stamped f = if f.at == 0 then record f { at = env.now } else f

  pub record_step-Goes : (st : Step) (s : Store) → Goes p s.index (record_step p env st s)
  unfolding record_step run_after put_step
  record_step-Goes st s =
      commit_tx-Goes p env _ _ s.index s (Advances-refl p s.index) (same_index p s.index _ _ _ _ _)

  pub record_sample-Goes : (h : HealthSample) (s : Store) → Goes p s.index (record_sample p env h s)
  unfolding record_sample run_after
  record_sample-Goes h s =
      commit_tx-Goes p env _ _ s.index s (Advances-refl p s.index) (same_index p s.index _ _ _ _ _)

  pub append_audit-Goes : (e : AuditEntry) (s : Store) → Goes p s.index (append_audit p env e s)
  unfolding append_audit run_after
  append_audit-Goes e s =
      commit_tx-Goes p env _ _ s.index s (Advances-refl p s.index)
        (logged p s [] (if e.at == 0 then record e { at = env.now } else e) _ _ refl)

  pub set_freeze-Goes : (f : Freeze) (s : Store) → Goes p s.index (set_freeze p env f s)
  unfolding set_freeze run_after
  set_freeze-Goes f s =
      commit_tx-Goes p env _ _ s.index s (Advances-refl p s.index)
        (logged p s (freeze (stamped f) ∷ []) (freeze_entry (stamped f)) _ _ refl)

  grant-Goes : (a : Approval) (s : Store) → Goes p s.index (grant p env a s)
  unfolding grant write_approval run_after
  grant-Goes a s = elim (Option-cases (lookup a.deployment_id s.deployments)) [
    | inl q ↦ rw (q, grant) (Goes-same p _ s)
    | inr (d, q) ↦
        rw (q, grant)
          (commit_tx-Goes p env _ _ s.index s (Advances-refl p s.index)
            (logged p s (approval a ∷ []) (approval_entry a d) _ _ refl))
  ]

  pub record_approval-Goes : (a : Approval) (s : Store) → Goes p s.index (record_approval p env a s)
  unfolding record_approval
  record_approval-Goes a s =
      Goes-if p (has_approved a.user (slice a.deployment_id s.approvals)) s.index _ _
        (Goes-same p _ s) (grant-Goes _ s)

  pub enqueue-Goes : (e : OutboxEntry) (s : Store) → Goes p s.index (enqueue p env e s)
  unfolding enqueue enqueue_tx run_after
  enqueue-Goes e s =
      commit_tx-Goes p env _ _ s.index (at_seq (s.outbox_seq + 1) s)
        (same_index p s.index _ _ _ _ _)
        (record {
          fences = Fences-refl s.leases;
          rows = Rows-refl s.deployments;
          keys = Keys-refl s.by_idem_key;
          log = Log-refl p (s.audit, s.audit_head);
          notes = Notes-append s.outbox _;
        })

  write_state-Goes :
      (x o : OutboxEntry) (s : Store)
      → find_entry x.id s.outbox ≡ some o
      → Kept o x
      → Goes p s.index (write_state p env x s)
  unfolding write_state run_after
  write_state-Goes x o s f k =
      commit_tx-Goes p env _ _ s.index s (Advances-refl p s.index) (record {
        fences = Fences-refl s.leases;
        rows = Rows-refl s.deployments;
        keys = Keys-refl s.by_idem_key;
        log = Log-refl p (s.audit, s.audit_head);
        notes = Notes-set_entry x o s.outbox f k;
      })

  update_outbox-Goes :
      (id : ℕ) (f : OutboxEntry → OutboxEntry) (s : Store)
      → ((e : OutboxEntry) → (f e).id ≡ e.id)
      → ((e : OutboxEntry) → Kept e (f e))
      → Goes p s.index (update_outbox p env id f s)
  unfolding update_outbox
  update_outbox-Goes id f s same kept = elim (Option-cases (find_entry id s.outbox)) [
    | inl q ↦ rw (q, update_outbox) (Goes-same p _ s)
    | inr (e, q) ↦
        rw (q, update_outbox)
          (write_state-Goes (f e) e s
            (subst (λ j. find_entry j s.outbox ≡ some e)
              (sym (same e ∙ find_entry-id id s.outbox e q)) q)
            (kept e))
  ]

  pub deliver-Goes : (id : ℕ) (s : Store) → Goes p s.index (deliver p env id s)
  unfolding deliver delivered
  deliver-Goes id s =
      update_outbox-Goes id (mark_delivered env) s (λ e. refl) (λ e. (refl, refl, refl, λ d. refl))

  pub fail_delivery-Goes :
      (id : ℕ) (cause : String) (s : Store) → Goes p s.index (fail_delivery p env id cause s)
  unfolding fail_delivery delivered
  fail_delivery-Goes id cause s =
      update_outbox-Goes id (mark_failed env cause) s (λ e. refl) (λ e. (refl, refl, refl, λ d. d))
