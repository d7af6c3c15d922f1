-- ===== src/Store/Progress/Steps/Moves.antt =====
-- Deployments.
use dev_ops_pipeline_orchest.Prelude.{
  Bool-cases, List, Option, Option-cases, String, [], ap, arith, if◌then◌else◌, inl, inr, insert,
  lookup, none, refl, some, subst, sym, true, ℕ, ◌==◌, ◌||◌, ◌∙◌, ◌∷◌, ◌≡◌, string_eq, nat_eq,
}
use dev_ops_pipeline_orchest.Store.State.{State, can_transition, requires_lease, state_eq}
use dev_ops_pipeline_orchest.Store.State.Paths.{History, here, move}
use dev_ops_pipeline_orchest.Store.Rows.{
  AuditEntry, Deployment, OutboxEntry, Result, deployment, err, ok, resource,
}
use dev_ops_pipeline_orchest.Store.Index.{Index}
use dev_ops_pipeline_orchest.Store.Transactions.{Env, Platform, Store, run_after}
use dev_ops_pipeline_orchest.Store.Leases.{check_fence}
use dev_ops_pipeline_orchest.Store.Deployments.{
  add_deployment, create_deployment, create_fresh, created_entry, created_row, entry_for,
  insert_row, moved, transition, transition_check, update_deployment, write_transition,
  write_update,
}
use dev_ops_pipeline_orchest.Store.Durability.NoteSteps.{at_seq, numbered, top_id, with_notes}
use dev_ops_pipeline_orchest.Store.Durability.MoveSteps.{
  chain_entry, put_row, run_move, with_entry, write_transition_lem,
}
use dev_ops_pipeline_orchest.Store.Progress.{Advances}
use dev_ops_pipeline_orchest.Store.Progress.Parts.{
  Fences-refl, Keys, Keys-insert, Keys-refl, Log, Log-refl, Notes-append, Notes-refl, Rows-insert,
}
use dev_ops_pipeline_orchest.Store.Progress.Steps.{
  Advances-refl, Advances-trans, Goes, Goes-same, Goes-value, Log-chained, commit_tx-Goes, logged,
  same_index,
}
use dev_ops_pipeline_orchest.Store.Audit.{append_entry, chained}
use dev_ops_pipeline_orchest.Store.Durability.RowSteps.{IsFresh}

add_deployment-Advances :
    (p : Platform) (i : Index) (d : Deployment)
    → lookup d.id i.deployments ≡ none
    → IsFresh d i
    → Advances p i (add_deployment d i)
unfolding add_deployment
add_deployment-Advances p i d e f = record {
  fences = Fences-refl i.leases;
  rows = Rows-insert d.id d i.deployments (λ x q. absurd (ground arith));
  keys = key_kept f;
  log = Log-refl p (i.audit, i.audit_head);
  notes = Notes-refl i.outbox;
}
  where
    key_kept :
        IsFresh d i
        → Keys i.by_idem_key (
            if d.idempotency_key == ""
            then i.by_idem_key
            else insert d.idempotency_key d.id i.by_idem_key)
    key_kept (inl q) = rw q (Keys-refl i.by_idem_key)
    key_kept (inr q) = elim (Bool-cases (d.idempotency_key == "")) [
      | inl b ↦ rw b (Keys-refl i.by_idem_key)
      | inr b ↦ rw b (Keys-insert d.idempotency_key d.id i.by_idem_key q)
    ]

module _ (p : Platform) (env : Env) where
  insert_row-Goes :
      (d : Deployment) (s : Store)
      → lookup d.id s.deployments ≡ none
      → IsFresh d s.index
      → Goes p s.index (insert_row p env d s)
  unfolding insert_row run_after
  insert_row-Goes d s e f =
      let d' = created_row env d in
      let a = chained p s (deployment d' ∷ []) (created_entry env d') in
      Goes-value p _ s.index _ (
        commit_tx-Goes p env _ _ s.index s (Advances-refl p s.index) (
          Advances-trans p _ _ _
            (logged p s (deployment d' ∷ []) (created_entry env d') s.approvals s.freezes refl)
            (add_deployment-Advances p (append_entry a s.index) d' e f)))

  create_fresh-Goes :
      (d : Deployment) (s : Store) → IsFresh d s.index → Goes p s.index (create_fresh p env d s)
  unfolding create_fresh
  create_fresh-Goes d s f = elim (Option-cases (lookup d.id s.deployments)) [
    | inl e ↦ rw (e, create_fresh) (insert_row-Goes d s e f)
    | inr (x, e) ↦ rw (e, create_fresh) (Goes-same p _ s)
  ]

  pub create_deployment-Goes :
      (d : Deployment) (s : Store) → Goes p s.index (create_deployment p env d s)
  unfolding create_deployment
  create_deployment-Goes d s = elim (Bool-cases (d.idempotency_key == "")) [
    | inl q ↦ rw q (create_fresh-Goes d s (inl q))
    | inr q ↦ elim (Option-cases (lookup d.idempotency_key s.by_idem_key)) [
      | inl e ↦ rw q (rw (e, create_deployment) (create_fresh-Goes d s (inr e)))
      | inr (id, e) ↦ rw q (rw (e, create_deployment) (Goes-same p _ s))
    ]
  ]

  entry_logged :
      (d next : Deployment) (entry : Option AuditEntry) (s : Store)
      → Log p
          (s.audit, s.audit_head)
          (
            (with_entry (chain_entry p env d next entry s) s.index).audit,
            (with_entry (chain_entry p env d next entry s) s.index).audit_head,
          )
  entry_logged d next none s = Log-refl p (s.audit, s.audit_head)
  entry_logged d next (some e) s = Log-chained p s (deployment next ∷ []) (entry_for env d e) refl

  moved_on :
      (id : String) (d next : Deployment) (o : Option AuditEntry) (qs : List OutboxEntry) (n : ℕ)
      (s : Store)
      → Log p
          (s.audit, s.audit_head)
          ((with_entry o s.index).audit, (with_entry o s.index).audit_head)
      → lookup id s.deployments ≡ some d
      → can_transition d.state next.state ≡ true
      → next.id ≡ d.id
      → Advances p s.index (put_row id next (with_notes qs (with_entry o (at_seq n s).index)))
  moved_on id d next none qs n s h e c i = record {
    fences = Fences-refl s.leases;
    rows = Rows-insert id next s.deployments (λ x q.
        let same : d ≡ x = ground arith in
        (
          λ j. i ∙ ap (λ (y : Deployment). y.id) same ∙ j,
          next.state ∷ [],
          move (subst (λ y. can_transition y.state next.state ≡ true) same c) here,
        ));
    keys = Keys-refl s.by_idem_key;
    log = h;
    notes = Notes-append s.outbox qs;
  }
  moved_on id d next (some a) qs n s h e c i = record {
    fences = Fences-refl s.leases;
    rows = Rows-insert id next s.deployments (λ x q.
        let same : d ≡ x = ground arith in
        (
          λ j. i ∙ ap (λ (y : Deployment). y.id) same ∙ j,
          next.state ∷ [],
          move (subst (λ y. can_transition y.state next.state ≡ true) same c) here,
        ));
    keys = Keys-refl s.by_idem_key;
    log = h;
    notes = Notes-append s.outbox qs;
  }

  write_transition-Goes :
      (id : String) (to : State) (d : Deployment) (entry : Option AuditEntry)
      (notes : List OutboxEntry) (s : Store)
      → lookup id s.deployments ≡ some d
      → can_transition d.state to ≡ true
      → Goes p s.index (write_transition p env id to d entry notes s)
  unfolding moved
  write_transition-Goes id to d entry notes s e c =
      let n = s.outbox_seq in
      let qs = numbered env n notes in
      let next = moved env to d in
      let a = chain_entry p env d next entry s in
      let s' = at_seq (top_id n qs) s in
      rw (write_transition_lem p env id to d entry notes s) (
        commit_tx-Goes p env _ _ s.index s' (same_index p s.index _ _ _ _ _) (
          subst (Advances p s.index) (sym (run_move p.codec id next a qs s'.index))
            (moved_on id d next a qs _ s (entry_logged d next entry s) e c refl)))

  -- The guards of `transition` give the stored row, and a legal move.
  pub transition_check-ok :
      (id : String) (fence : ℕ) (from to : State) (s : Store) (d : Deployment)
      → transition_check p env id fence from to s ≡ ok d
      → (lookup id s.deployments ≡ some d)
        × (d.state ≡ from)
        × (can_transition from to ≡ true)
        × ((requires_lease to || requires_lease from) ≡ true
            → check_fence env (resource d) id fence s ≡ ok tt)
  unfolding transition_check
  transition_check-ok id fence from to s d e = ground (arith, state_eq.beq_iff d.state from)

  pub transition-Goes :
      (id : String) (fence : ℕ) (from to : State) (entry : Option AuditEntry)
      (notes : List OutboxEntry) (s : Store)
      → Goes p s.index (transition p env id fence from to entry notes s)
  unfolding transition
  transition-Goes id fence from to entry notes s =
      go (transition_check p env id fence from to s) refl
    where
      go :
          (r : Result Deployment)
          → transition_check p env id fence from to s ≡ r
          → Goes {A = Unit {0}} p s.index
              (elim r [ err e ↦ (err e, s) | ok d ↦ write_transition p env id to d entry notes s ])
      go (err x) e = Goes-same p (err x) s
      go (ok d) e =
          let (q, same, c, f) = transition_check-ok id fence from to s d e in
          write_transition-Goes id to d entry notes s q (rw same c)

  write_update-Goes :
      (d cur : Deployment) (s : Store)
      → lookup d.id s.deployments ≡ some cur
      → cur.state ≡ d.state
      → Goes p s.index (write_update p env d s)
  unfolding write_update run_after
  write_update-Goes d cur s e k =
      commit_tx-Goes p env _ _ s.index s (Advances-refl p s.index) (record {
        fences = Fences-refl s.leases;
        rows =
            Rows-insert d.id (record d { updated_at = env.now }) s.deployments
              (λ x q.
                let same : cur ≡ x = ground arith in
                (
                  λ i. refl,
                  [],
                  subst (λ t. History t [] d.state) (sym k ∙ ap (λ (y : Deployment). y.state) same)
                      here,
                ));
        keys = Keys-refl s.by_idem_key;
        log = Log-refl p (s.audit, s.audit_head);
        notes = Notes-refl s.outbox;
      })

  pub update_deployment-Goes :
      (d : Deployment) (s : Store) → Goes p s.index (update_deployment p env d s)
  unfolding update_deployment
  update_deployment-Goes d s = elim (Option-cases (lookup d.id s.deployments)) [
    | inl q ↦ rw (q, update_deployment) (Goes-same p _ s)
    | inr (x, q) ↦
        rw (q, update_deployment)
          (elim (Bool-cases (x.state == d.state)) [
            | inl b ↦ rw b (write_update-Goes d x s q ((state_eq.beq_iff x.state d.state).0 b))
            | inr b ↦ rw b (Goes-same p _ s)
          ])
  ]
