-- ===== src/Store/Deployments/Outcomes.antt =====
-- What a transition that succeeds, and one that fails, has done.
use dev_ops_pipeline_orchest.Prelude.{
  List, Option, String, ap, arith, insert, lookup, none, refl, some, true, ℕ, ◌++◌, ◌||◌, ◌∙◌, ◌≡◌,
  string_eq, nat_eq,
}
use dev_ops_pipeline_orchest.Store.State.{State, can_transition, requires_lease, state_eq}
use dev_ops_pipeline_orchest.Store.Rows.{
  AuditEntry, Deployment, OutboxEntry, Result, StoreError, err, ok, resource,
}
use dev_ops_pipeline_orchest.Store.Transactions.{Env, Platform, Store}
use dev_ops_pipeline_orchest.Store.Transactions.Outcomes.{
  Ended, commit_tx-Ended, landed, not_written,
}
use dev_ops_pipeline_orchest.Store.Leases.{check_fence}
use dev_ops_pipeline_orchest.Store.Deployments.{
  moved, transition, transition_check, write_transition,
}
use dev_ops_pipeline_orchest.Store.Durability.NoteSteps.{at_seq, numbered, top_id, with_notes}
use dev_ops_pipeline_orchest.Store.Durability.MoveSteps.{
  chain_entry, move_after, move_recs, put_row, run_move, with_entry, write_transition_lem,
}
use dev_ops_pipeline_orchest.Store.Index.{Index}
use dev_ops_pipeline_orchest.Store.Progress.Steps.Moves.{transition_check-ok}

-- A move that was allowed and is written: the row, the notes, and nothing of the leases.
pub record Moved (p : Platform) (env : Env) (id : String) (fence : ℕ) (from to : State)
    (entry : Option AuditEntry) (notes : List OutboxEntry) (s s' : Store) : Type 0 where
  pub before : Deployment
  pub stored : lookup id s.deployments ≡ some before
  pub in_state : before.state ≡ from
  pub legal : can_transition from to ≡ true
  pub fenced :
      (requires_lease to || requires_lease from) ≡ true
      → check_fence env (resource before) id fence s ≡ ok tt
  pub written : s'.deployments ≡ insert id (moved env to before) s.deployments
  pub sent : s'.outbox ≡ s.outbox ++ numbered env s.outbox_seq notes
  pub logged :
      s'.audit ≡ (with_entry (chain_entry p env before (moved env to before) entry s) s.index).audit
  pub leases_kept : s'.leases ≡ s.leases

-- The store is as it was, but for the counter of outbox ids and for the journal.
abbrev pub Untouched : Store → Store → Type 0
Untouched s s' =
    s' ≡ record s { index = record s.index { outbox_seq = s'.outbox_seq }; journal = s'.journal }

module _ (p : Platform) (env : Env) where
  write_transition-Ended :
      (id : String) (to : State) (d : Deployment) (entry : Option AuditEntry)
      (notes : List OutboxEntry) (s : Store)
      → let qs = numbered env s.outbox_seq notes in
        let next = moved env to d in
        let a = chain_entry p env d next entry s in
        Ended p
          (move_after p.codec id next a qs)
          (at_seq (top_id s.outbox_seq qs) s)
          (write_transition p env id to d entry notes s)
  unfolding move_recs
  write_transition-Ended id to d entry notes s =
      rw (write_transition_lem p env id to d entry notes s) (commit_tx-Ended p env _ _ _ _)

  -- A written transaction puts the row, the entry and the notes on the index.
  Moved-landed :
      (id : String) (fence : ℕ) (from to : State) (d : Deployment) (entry : Option AuditEntry)
      (notes : List OutboxEntry) (s s' : Store)
      → let qs = numbered env s.outbox_seq notes in
        let next = moved env to d in
        transition_check p env id fence from to s ≡ ok d
        → s'.index
          ≡ put_row id next (
              with_notes qs (
                with_entry
                  (chain_entry p env d next entry s)
                  (at_seq (top_id s.outbox_seq qs) s).index))
        → Moved p env id fence from to entry notes s s'
  Moved-landed id fence from to d entry notes s s' e q =
      let (found, same, c, f) = transition_check-ok p env id fence from to s d e in
      record {
        before = d;
        stored = found;
        in_state = same;
        legal = c;
        fenced = f;
        written = ap (λ (i : Index). i.deployments) q ∙ rows_of entry;
        sent = ap (λ (i : Index). i.outbox) q ∙ notes_of entry;
        logged = ap (λ (i : Index). i.audit) q ∙ log_of entry;
        leases_kept = ap (λ (i : Index). i.leases) q ∙ leases_of entry;
      }
    where
      built : Option AuditEntry → Index
      built o = put_row id (moved env to d) (
          with_notes (numbered env s.outbox_seq notes) (
            with_entry (chain_entry p env d (moved env to d) o s)
              (at_seq (top_id s.outbox_seq (numbered env s.outbox_seq notes)) s).index))

      rows_of :
          (o : Option AuditEntry) → (built o).deployments ≡ insert id (moved env to d) s.deployments
      rows_of none = refl
      rows_of (some x) = refl

      notes_of :
          (o : Option AuditEntry) → (built o).outbox ≡ s.outbox ++ numbered env s.outbox_seq notes
      notes_of none = refl
      notes_of (some x) = refl

      log_of :
          (o : Option AuditEntry)
          → (built o).audit ≡ (with_entry (chain_entry p env d (moved env to d) o s) s.index).audit
      log_of none = refl
      log_of (some x) = refl

      leases_of : (o : Option AuditEntry) → (built o).leases ≡ s.leases
      leases_of none = refl
      leases_of (some x) = refl

  -- A transition that succeeds was legal for the stored row, from the state that the caller named,
  -- and under the caller's lease where the two states ask for one; it wrote the moved row, the audit
  -- entry and all notes together. One that a guard refuses leaves the whole store as it was. One
  -- that fails, for whatever reason, has changed nothing but the journal and, in the index, the
  -- counter of outbox ids.
  pub transition_all_or_nothing :
      (id : String) (fence : ℕ) (from to : State) (entry : Option AuditEntry)
      (notes : List OutboxEntry) (s : Store)
      → let r = transition p env id fence from to entry notes s in
        (r.0 ≡ ok tt → Moved p env id fence from to entry notes s r.1)
        × ((x : StoreError) → transition_check p env id fence from to s ≡ err x → r ≡ (err x, s))
        × ((x : StoreError) → r.0 ≡ err x → Untouched s r.1)
  unfolding transition
  transition_all_or_nothing id fence from to entry notes s =
      let k = by_check (transition_check p env id fence from to s) refl in
      (k.0, λ x e. rw (e, transition) refl, k.1)
    where
      Good : Result (Unit {0}) × Store → Type 0
      Good r =
          (r.0 ≡ ok tt → Moved p env id fence from to entry notes s r.1)
          × ((x : StoreError) → r.0 ≡ err x → Untouched s r.1)

      by_end :
          (d : Deployment)
          → transition_check p env id fence from to s ≡ ok d
          → {r : Result (Unit {0}) × Store}
          → let qs = numbered env s.outbox_seq notes in
            let a = chain_entry p env d (moved env to d) entry s in
            Ended p
              (move_after p.codec id (moved env to d) a qs)
              (at_seq (top_id s.outbox_seq qs) s)
              r
            → Good r
      by_end d e (landed j) = (
        λ k.
            Moved-landed id fence from to d entry notes s _ e
              (run_move p.codec id (moved env to d) _ _ _),
        λ x k. absurd (ground arith),
      )
      by_end d e (not_written y j) = (λ k. absurd (ground arith), λ x k. refl)

      by_check :
          (c : Result Deployment)
          → transition_check p env id fence from to s ≡ c
          → Good
              (elim c [ err e ↦ (err e, s) | ok d ↦ write_transition p env id to d entry notes s ])
      by_check (err y) e = (λ k. absurd (ground arith), λ x k. refl)
      by_check (ok d) e = by_end d e (write_transition-Ended id to d entry notes s)
