-- ===== src/Store/Durability/Sound.antt =====
-- What the index keeps besides: each row stands under its own key, and outbox ids rise.
use dev_ops_pipeline_orchest.Prelude.{
  Bool, List, Map, String, [], arith, false, if◌then◌else◌, lookup, some, true, ℕ, ◌++◌, ◌<◌, ◌==◌,
  ◌∷◌, ◌≡◌, ◌≤◌, ◌⊎◌, string_eq, nat_eq,
}
use dev_ops_pipeline_orchest.Store.Rows.{
  AuditEntry, Deployment, Lease, OutboxEntry, Payload, Result, err, ok,
}
use dev_ops_pipeline_orchest.Store.Index.{Index}
use dev_ops_pipeline_orchest.Store.Transactions.{
  Env, Platform, Store, commit_tx, committed, run_after, with_value,
}
use dev_ops_pipeline_orchest.Store.Audit.{append_entry}
use dev_ops_pipeline_orchest.Store.Journal.{Journal, append_group, durable}
use dev_ops_pipeline_orchest.Store.Durability.{Agrees, IsDurable, commit_tx-IsDurable}

-- Ids rise strictly from above `lo` up to `hi`.
abbrev pub Rising : ℕ → List OutboxEntry → ℕ → Type 0
Rising lo [] hi = lo ≤ hi
Rising lo (e ∷ es) hi = (lo < e.id) × Rising e.id es hi

pub Rising-mono :
    (lo : ℕ) (es : List OutboxEntry) (hi hi' : ℕ) → hi ≤ hi' → Rising lo es hi → Rising lo es hi'
Rising-mono lo [] hi hi' h r = omega arith
Rising-mono lo (e ∷ es) hi hi' h r = (r.0, Rising-mono e.id es hi hi' h r.1)

pub Rising-append :
    (lo : ℕ) (es : List OutboxEntry) (hi : ℕ) (e : OutboxEntry)
    → hi < e.id
    → Rising lo es hi
    → Rising lo (es ++ e ∷ []) e.id
Rising-append lo [] hi e h r = (omega arith, omega arith)
Rising-append lo (x ∷ es) hi e h r = (r.0, Rising-append x.id es hi e h r.1)

abbrev pub KeyOf : Deployment → String → Map String → Type 0
KeyOf d id m = ((d.idempotency_key == "") ≡ true) ⊎ (lookup d.idempotency_key m ≡ some id)

pub record IsConsistent (i : Index) : Type 0 where
  pub row_id : (id : String) (d : Deployment) → lookup id i.deployments ≡ some d → d.id ≡ id
  pub row_key :
      (id : String) (d : Deployment) → lookup id i.deployments ≡ some d → KeyOf d id i.by_idem_key
  pub lease_row : (r : String) (l : Lease) → lookup r i.leases ≡ some l → l.resource ≡ r
  pub ids : Rising 0 i.outbox i.outbox_seq

pub record IsSound (p : Platform) (s : Store) : Type 0 where
  pub on_disk : IsDurable p s
  pub consistent : IsConsistent s.index

pub audit-IsConsistent :
    (a : AuditEntry) (i : Index) → IsConsistent i → IsConsistent (append_entry a i)
audit-IsConsistent a i h = record {
  row_id = h.row_id;
  row_key = h.row_key;
  lease_row = h.lease_row;
  ids = h.ids;
}

-- An operation leaves a sound store behind, whatever its result.
pub record Leaves {ℓ} {A : Type ℓ} (p : Platform) (r : Result A × Store) : Type 0 where
  pub sound : IsSound p r.1

module _ (p : Platform) where
  commit_tx-IsConsistent :
      (env : Env) (recs : List Payload) (fs : List (Index → Index)) (s : Store)
      → IsConsistent s.index
      → IsConsistent (run_after fs s.index)
      → IsConsistent (commit_tx p env (record { recs = recs; apply_after = fs }) s).1.index
  unfolding commit_tx
  commit_tx-IsConsistent env [] fs s h k = h
  commit_tx-IsConsistent env (r ∷ rs) fs s h k =
      go (append_group p.codec env.disk (r ∷ rs) s.journal)
    where
      go :
          (r' : Result (Unit {0}) × Journal)
          → IsConsistent (committed (record { recs = r ∷ rs; apply_after = fs }) r' s).1.index
      go (ok u, j) = k
      go (err x, j) = h

  pub commit_tx-IsSound :
      (env : Env) (recs : List Payload) (fs : List (Index → Index)) (s : Store)
      → env.disk ≡ durable
      → IsSound p s
      → Agrees p.codec (record { recs = recs; apply_after = fs }) s.index
      → IsConsistent (run_after fs s.index)
      → Leaves p (commit_tx p env (record { recs = recs; apply_after = fs }) s)
  commit_tx-IsSound env recs fs s e h a k = record {
    sound = record {
      on_disk = commit_tx-IsDurable p env recs fs s e h.on_disk a;
      consistent = commit_tx-IsConsistent env recs fs s h.consistent k;
    };
  }

module _ {ℓ} {A : Type ℓ} (p : Platform) where
  pub Leaves-same : (r : Result A) (s : Store) → IsSound p s → Leaves p (r, s)
  Leaves-same r s h = record { sound = h }

  pub Leaves-if :
      (b : Bool) (x y : Result A × Store) → Leaves p x → Leaves p y → Leaves p (if b then x else y)
  Leaves-if true x y hx hy = hx
  Leaves-if false x y hx hy = hy

  pub Leaves-value :
      (a : A) (r : Result (Unit {0}) × Store) → Leaves p r → Leaves p (with_value a r)
  Leaves-value a (ok u, s) h = record { sound = h.sound }
  Leaves-value a (err e, s) h = record { sound = h.sound }

pub ruleset leaves_rules = (Leaves-same, Leaves-if, Leaves-value)
