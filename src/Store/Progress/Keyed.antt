-- ===== src/Store/Progress/Keyed.antt =====
-- A second creation with a key that was used gives the first row back.
use dev_ops_pipeline_orchest.Prelude.{
  Bool, List, Option, Option-cases, String, [], ap, arith, false, inl, inr, lookup,
  lookup-insert_self, refl, some, subst, sym, true, ◌==◌, ◌∙◌, ◌∷◌, ◌≡◌, string_eq, nat_eq,
}
use dev_ops_pipeline_orchest.Store.State.{State, state_eq}
use dev_ops_pipeline_orchest.Store.Rows.{AuditEntry, Deployment, Result, audit, deployment, ok}
use dev_ops_pipeline_orchest.Store.Transactions.{Env, Platform, Store, run_after, with_value}
use dev_ops_pipeline_orchest.Store.Deployments.{
  add_deployment, create_deployment, create_fresh, created_entry, created_row, insert_row, row,
}
use dev_ops_pipeline_orchest.Store.Audit.{append_entry, chained}
use dev_ops_pipeline_orchest.Store.Index.{Index}
use dev_ops_pipeline_orchest.Store.Operations.{Calls}
use dev_ops_pipeline_orchest.Store.Progress.Promises.{Calls-Advances}
use dev_ops_pipeline_orchest.Store.State.Paths.{History}
use dev_ops_pipeline_orchest.Store.Transactions.Outcomes.{
  Ended, commit_tx-Ended, landed, not_written,
}

-- The key leads to the row that a creation returned, which has the id `own` if it was made.
record Filed (key own : String) (x : Deployment) (made : Bool) (s : Store) : Type 0 where
  pub id : String
  pub found : lookup key s.by_idem_key ≡ some id
  pub row_there : row id s ≡ some x
  pub named : made ≡ true → (id ≡ own) × (x.id ≡ own)

module _ (p : Platform) where
  insert_row-Filed :
      (env : Env) (d x : Deployment) (b : Bool) (s : Store)
      → (d.idempotency_key == "") ≡ false
      → (insert_row p env d s).0 ≡ ok (some x, b)
      → Filed d.idempotency_key d.id x b (insert_row p env d s).1
  unfolding insert_row run_after add_deployment
  insert_row-Filed env d x b s k e =
      go (commit_tx-Ended p env (deployment d') (audit a ∷ []) fs s) e
    where
      d' : Deployment
      d' = created_row env d

      a : AuditEntry
      a = chained p s (deployment d' ∷ []) (created_entry env d')

      fs : List (Index → Index)
      fs = append_entry a ∷ add_deployment d' ∷ []

      go :
          {r : Result (Unit {0}) × Store}
          → Ended p fs s r
          → (with_value {A = Option Deployment × Bool} (some d', true) r).0 ≡ ok (some x, b)
          → Filed d.idempotency_key d.id x b
              (with_value {A = Option Deployment × Bool} (some d', true) r).1
      go (landed j) q = record {
        id = d.id;
        found = rw k (lookup-insert_self d.idempotency_key d.id s.by_idem_key);
        row_there = lookup-insert_self d.id d' s.deployments ∙ ground arith;
        named = λ h.
            let same : d' ≡ x = ground arith in (refl, ap (λ (y : Deployment). y.id) (sym same));
      }
      go (not_written y j) q = absurd (ground arith)

  create_fresh-Filed :
      (env : Env) (d x : Deployment) (b : Bool) (s : Store)
      → (d.idempotency_key == "") ≡ false
      → (create_fresh p env d s).0 ≡ ok (some x, b)
      → Filed d.idempotency_key d.id x b (create_fresh p env d s).1
  unfolding create_fresh
  create_fresh-Filed env d x b s k e = elim (Option-cases (lookup d.id s.deployments)) [
    | inl q ↦ rw (q, create_fresh) (insert_row-Filed env d x b s k (rw (q, create_fresh) at e))
    | inr (y, q) ↦ absurd (let e' = rw (q, create_fresh) at e in ground arith)
  ]

  create_deployment-Filed :
      (env : Env) (d x : Deployment) (b : Bool) (s : Store)
      → (d.idempotency_key == "") ≡ false
      → (create_deployment p env d s).0 ≡ ok (some x, b)
      → Filed d.idempotency_key d.id x b (create_deployment p env d s).1
  unfolding create_deployment
  create_deployment-Filed env d x b s k e =
      elim (Option-cases (lookup d.idempotency_key s.by_idem_key)) [
        | inl q ↦ rw k (
            rw (q, create_deployment)
              (create_fresh-Filed env d x b s k (rw (k, q, create_deployment) at e)))
        | inr (id, q) ↦
            let e' = rw (k, q, create_deployment) at e in
            rw k (
              rw (q, create_deployment)
                (record {
                  id = id;
                  found = q;
                  row_there = ground arith;
                  named = λ h. absurd (ground arith);
                }))
      ]

  given_back :
      (key : String) (env : Env) (d y : Deployment) (s : Store) (id : String)
      → (key == "") ≡ false
      → d.idempotency_key ≡ key
      → lookup key s.by_idem_key ≡ some id
      → lookup id s.deployments ≡ some y
      → create_deployment p env d s ≡ (ok (some y, false), s)
  unfolding create_deployment
  given_back key env d y s id k same f q = rw (same, k) (rw (f, q) refl)

  -- After a creation with an idempotency key that made a row, and whatever calls follow on whatever
  -- disk, a creation with the same key writes nothing and says that it made no row: it returns the
  -- row that is stored now under the first row's id, which has that id, and whose state legal
  -- transitions led to from the first row's.
  pub create_deployment-again :
      {s' : Store} (s : Store) (env env' : Env) (d d' x : Deployment)
      → (d.idempotency_key == "") ≡ false
      → d'.idempotency_key ≡ d.idempotency_key
      → (create_deployment p env d s).0 ≡ ok (some x, true)
      → Calls p (create_deployment p env d s).1 s'
      → (x.id ≡ d.id)
        × (y : Deployment) × (ts : List State) × (create_deployment p env' d' s'
            ≡ (ok (some y, false), s'))
        × (lookup x.id s'.deployments ≡ some y)
        × (y.id ≡ x.id)
        × History x.state ts y.state
  create_deployment-again {s'} s env env' d d' x k same e run =
      let filed = create_deployment-Filed env d x true s k e in
      let (at_id, own) = filed.named refl in
      let named : filed.id ≡ x.id = at_id ∙ sym own in
      let adv = Calls-Advances p run in
      let (y, q, (i, ts, h)) = adv.rows filed.id x filed.row_there in
      (
        own,
        y,
        ts,
        given_back d.idempotency_key env' d' y s' filed.id k same
            (adv.keys d.idempotency_key filed.id filed.found) q,
        subst (λ j. lookup j s'.deployments ≡ some y) named q,
        i (sym named) ∙ named,
        h,
      )
