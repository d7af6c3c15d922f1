-- ===== src/Store/Progress/Chain.antt =====
-- What VerifyAudit decides, and what it says of the logs that the store writes itself.
use dev_ops_pipeline_orchest.Prelude.{
  List, Option, String, [], arith, eq_iff, none, refl, some, subst, sym, true, ℕ, ◌++◌, ◌↔◌, ◌∷◌,
  ◌≡◌, ◌≤◌, string_eq, nat_eq,
}
use dev_ops_pipeline_orchest.Store.Rows.{AuditEntry, Time}
use dev_ops_pipeline_orchest.Store.Index.{genesis_hash}
use dev_ops_pipeline_orchest.Store.Transactions.{Platform, Store}
use dev_ops_pipeline_orchest.Store.Audit.{audit_hash, verify_audit, verify_from}
use dev_ops_pipeline_orchest.Store.Operations.{Calls, empty_store}
use dev_ops_pipeline_orchest.Store.Progress.Parts.{Linked, chain_end, link}
use dev_ops_pipeline_orchest.Store.Progress.Promises.{Calls-Advances}

-- No entry is dated before the one in front of it.
abbrev pub Dated : Option Time → List AuditEntry → Type 0
Dated before [] = Unit {0}
Dated none (e ∷ es) = Dated (some e.at) es
Dated (some t) (e ∷ es) = (t ≤ e.at) × Dated (some e.at) es

module _ (p : Platform) where
  verify_from_sound :
      (prev : String) (before : Option Time) (es : List AuditEntry)
      → verify_from p prev before es ≡ true
      → ((head : String) × Linked p prev es head) × Dated before es
  unfolding verify_from
  verify_from_sound prev before [] h = ((prev, chain_end), tt)
  verify_from_sound prev none (e ∷ es) h =
      let ((head, k), d) = verify_from_sound e.hash (some e.at) es (ground arith) in
      (
        (
          head,
          link e (ground (arith, eq_iff e.prev_hash prev))
              (sym (ground (arith, eq_iff (audit_hash p prev e) e.hash))) k,
        ),
        d,
      )
  verify_from_sound prev (some t) (e ∷ es) h =
      let ((head, k), d) = verify_from_sound e.hash (some e.at) es (ground arith) in
      (
        (
          head,
          link e (ground (arith, eq_iff e.prev_hash prev))
              (sym (ground (arith, eq_iff (audit_hash p prev e) e.hash))) k,
        ),
        (ground arith, d),
      )

  verify_from_complete :
      {prev head : String} (before : Option Time) {es : List AuditEntry}
      → Linked p prev es head
      → Dated before es
      → verify_from p prev before es ≡ true
  unfolding verify_from
  verify_from_complete before chain_end d = refl
  verify_from_complete {prev} none (link e a b rest) d = ground (
    arith,
    a,
    b,
    eq_iff e.prev_hash prev,
    eq_iff (audit_hash p prev e) e.hash,
    verify_from_complete (some e.at) rest d,
  )
  verify_from_complete {prev} (some t) (link e a b rest) d = ground (
    arith,
    a,
    b,
    d.0,
    eq_iff e.prev_hash prev,
    eq_iff (audit_hash p prev e) e.hash,
    verify_from_complete (some e.at) rest d.1,
  )

  -- VerifyAudit accepts a log exactly when every entry carries the hash of the entry before it (the
  -- first one the genesis hash) and the hash of its own content, and no entry is dated before the
  -- one in front of it.
  pub verify_audit_iff :
      (s : Store)
      → (verify_audit p s ≡ true)
        ↔ (((head : String) × Linked p genesis_hash s.audit head) × Dated none s.audit)
  unfolding verify_audit
  verify_audit_iff s =
      (verify_from_sound genesis_hash none s.audit, λ h. verify_from_complete none h.0.1 h.1)

  -- Of a log that was written by calls on a new store alone, VerifyAudit accepts exactly the ones
  -- whose entries are in the order of their dates.
  pub verify_audit-Calls :
      (ttl : ℕ) (s : Store)
      → Calls p (empty_store ttl) s
      → (verify_audit p s ≡ true) ↔ Dated none s.audit
  unfolding verify_audit
  verify_audit-Calls ttl s run =
      let log = (Calls-Advances p run).log in
      (
        λ h. (verify_from_sound genesis_hash none s.audit h).1,
        λ d.
            verify_from_complete none
              (subst (λ es. Linked p genesis_hash es s.audit_head) (sym log.grown) log.linked) d,
      )

  -- The log only grows: whatever is called, it keeps what it holds, and the entries behind that are
  -- chained from its head to the new one.
  pub log_append_only :
      {s s' : Store}
      → Calls p s s'
      → (added : List AuditEntry) × (s'.audit ≡ s.audit ++ added)
        × Linked p s.audit_head added s'.audit_head
  log_append_only run = let log = (Calls-Advances p run).log in (log.added, log.grown, log.linked)
