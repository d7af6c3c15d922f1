-- ===== src/Store/Progress/Steps.antt =====
-- Each operation advances the index, whatever the disk does.
pub mod Small
pub mod Large
pub mod Moves
use dev_ops_pipeline_orchest.Prelude.{
  Bool, List, Map, [], ap, arith, false, if◌then◌else◌, refl, true, ℕ, ◌++◌, ◌∷◌, ◌≡◌,
}
use dev_ops_pipeline_orchest.Store.Rows.{
  Approval, AuditEntry, Freeze, HealthSample, Payload, Result, Step, err, ok,
}
use dev_ops_pipeline_orchest.Store.Index.{Index}
use dev_ops_pipeline_orchest.Store.Journal.{Journal, append_group}
use dev_ops_pipeline_orchest.Store.Transactions.{
  Env, Platform, Store, commit_tx, committed, run_after, with_value,
}
use dev_ops_pipeline_orchest.Store.Audit.{append_entry, audit_hash, chain_head, chained}
use dev_ops_pipeline_orchest.Store.Progress.{Advances}
use dev_ops_pipeline_orchest.Store.Progress.Parts.{
  Fences-refl, Keys-refl, Log, Log-refl, Log-trans, Notes-refl, Notes-trans, Rows-refl, Rows-trans,
  chain_end, link,
}

-- The store behind an operation has advanced.
pub record Goes {ℓ} {A : Type ℓ} (p : Platform) (i : Index) (r : Result A × Store) : Type 0 where
  pub forth : Advances p i r.1.index

module _ (p : Platform) where
  pub Advances-refl : (i : Index) → Advances p i i
  Advances-refl i = record {
    fences = Fences-refl i.leases;
    rows = Rows-refl i.deployments;
    keys = Keys-refl i.by_idem_key;
    log = Log-refl p (i.audit, i.audit_head);
    notes = Notes-refl i.outbox;
  }

  pub Advances-trans : (a b c : Index) → Advances p a b → Advances p b c → Advances p a c
  Advances-trans a b c h k = record {
    fences = λ r. omega (arith, h.fences r, k.fences r);
    rows = Rows-trans a.deployments b.deployments c.deployments h.rows k.rows;
    keys = λ x id e. k.keys x id (h.keys x id e);
    log = Log-trans p _ _ _ h.log k.log;
    notes = Notes-trans a.outbox b.outbox c.outbox h.notes k.notes;
  }

  -- The entry that `appendAuditTx` chains to a log goes on from its head.
  pub Log-chained :
      (s : Store) (recs : List Payload) (e : AuditEntry)
      → chain_head s.audit_head recs ≡ s.audit_head
      → Log p
          (s.audit, s.audit_head)
          (s.audit ++ chained p s recs e ∷ [], (chained p s recs e).hash)
  unfolding audit_hash
  Log-chained s recs e h = record {
    added = chained p s recs e ∷ [];
    grown = refl;
    linked = link _ h (ap (λ t. audit_hash p t e) h) chain_end;
  }

  -- A change of the tables that nothing here speaks of.
  pub same_index :
      (i : Index) (steps : Map (List Step)) (samples : Map (List HealthSample)) (n : ℕ)
      (approvals : Map (List Approval)) (freezes : Map Freeze)
      → Advances p i (record i {
        steps = steps;
        samples = samples;
        approvals = approvals;
        freezes = freezes;
        outbox_seq = n;
      })
  same_index i steps samples n approvals freezes = record {
    fences = Fences-refl i.leases;
    rows = Rows-refl i.deployments;
    keys = Keys-refl i.by_idem_key;
    log = Log-refl p (i.audit, i.audit_head);
    notes = Notes-refl i.outbox;
  }

  pub logged :
      (s : Store) (recs : List Payload) (e : AuditEntry) (approvals : Map (List Approval))
      (freezes : Map Freeze)
      → chain_head s.audit_head recs ≡ s.audit_head
      → Advances p s.index (
          append_entry
            (chained p s recs e)
            (record s.index { approvals = approvals; freezes = freezes }))
  logged s recs e approvals freezes h = record {
    fences = Fences-refl s.leases;
    rows = Rows-refl s.deployments;
    keys = Keys-refl s.by_idem_key;
    log = Log-chained s recs e h;
    notes = Notes-refl s.outbox;
  }

  pub commit_tx-Goes :
      (env : Env) (recs : List Payload) (fs : List (Index → Index)) (i : Index) (s : Store)
      → Advances p i s.index
      → Advances p i (run_after fs s.index)
      → Goes p i (commit_tx p env (record { recs = recs; apply_after = fs }) s)
  unfolding commit_tx
  commit_tx-Goes env [] fs i s h k = record { forth = h }
  commit_tx-Goes env (r ∷ rs) fs i s h k = go (append_group p.codec env.disk (r ∷ rs) s.journal)
    where
      go :
          (r' : Result (Unit {0}) × Journal)
          → Goes p i (committed (record { recs = r ∷ rs; apply_after = fs }) r' s)
      go (ok u, j) = record { forth = k }
      go (err x, j) = record { forth = h }

module _ {ℓ} {A : Type ℓ} (p : Platform) where
  pub Goes-same : (r : Result A) (s : Store) → Goes p s.index (r, s)
  Goes-same r s = record { forth = Advances-refl p s.index }

  pub Goes-if :
      (b : Bool) (i : Index) (x y : Result A × Store)
      → Goes p i x
      → Goes p i y
      → Goes p i (if b then x else y)
  Goes-if true i x y hx hy = hx
  Goes-if false i x y hx hy = hy

  pub Goes-value :
      (a : A) (i : Index) (r : Result (Unit {0}) × Store) → Goes p i r → Goes p i (with_value a r)
  Goes-value a i (ok u, s) h = record { forth = h.forth }
  Goes-value a i (err e, s) h = record { forth = h.forth }
