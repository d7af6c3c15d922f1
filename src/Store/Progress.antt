-- ===== src/Store/Progress.antt =====
-- What no operation of the store takes back, on any disk: fence tokens, rows and their states, keys,
-- the audit log, and queued notes.
pub mod Parts
pub mod Steps
pub mod Promises
pub mod Chain
pub mod Keyed
use dev_ops_pipeline_orchest.Store.Transactions.{Platform}
use dev_ops_pipeline_orchest.Store.Index.{Index}
use dev_ops_pipeline_orchest.Store.Progress.Parts.{Fences, Keys, Log, Notes, Rows}

pub record Advances (p : Platform) (i i' : Index) : Type 0 where
  pub fences : Fences i.leases i'.leases
  pub rows : Rows i.deployments i'.deployments
  pub keys : Keys i.by_idem_key i'.by_idem_key
  pub log : Log p (i.audit, i.audit_head) (i'.audit, i'.audit_head)
  pub notes : Notes i.outbox i'.outbox
