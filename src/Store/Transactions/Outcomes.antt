-- ===== src/Store/Transactions/Outcomes.antt =====
-- The two ways in which a commit can end.
use dev_ops_pipeline_orchest.Prelude.{List, ◌∷◌, string_eq, nat_eq}
use dev_ops_pipeline_orchest.Store.Rows.{Payload, Result, StoreError, err, ok}
use dev_ops_pipeline_orchest.Store.Index.{Index}
use dev_ops_pipeline_orchest.Store.Journal.{Journal, append_group}
use dev_ops_pipeline_orchest.Store.Transactions.{
  Env, Platform, Store, commit_tx, committed, run_after,
}

-- Either the functions ran on the index, or only the journal has changed.
pub data Ended (p : Platform) (fs : List (Index → Index)) (s : Store)
    : Result (Unit {0}) × Store → Type 0 where
  landed :
      (j : Journal) → Ended p fs s (ok tt, record s { index = run_after fs s.index; journal = j })
  not_written : (x : StoreError) (j : Journal) → Ended p fs s (err x, record s { journal = j })

pub commit_tx-Ended :
    (p : Platform) (env : Env) (r : Payload) (rs : List Payload) (fs : List (Index → Index))
    (s : Store)
    → Ended p fs s (commit_tx p env (record { recs = r ∷ rs; apply_after = fs }) s)
unfolding commit_tx
commit_tx-Ended p env r rs fs s = go (append_group p.codec env.disk (r ∷ rs) s.journal)
  where
    go :
        (r' : Result (Unit {0}) × Journal)
        → Ended p fs s (committed (record { recs = r ∷ rs; apply_after = fs }) r' s)
    go (ok u, j) = landed j
    go (err x, j) = not_written x j
