-- ===== src/Store/Audit.antt =====
-- internal/store/store.go: the hash chain of audit entries.
use dev_ops_pipeline_orchest.Prelude.{
  Bool, List, Map, Option, String, [], false, if◌then◌else◌, length, ltb, none, not, some, str_lt,
  suc, true, ℕ, ◌++◌, ◌+◌, ◌==◌, ◌∷◌, ◌⧺◌, string_eq, nat_eq,
}
use dev_ops_pipeline_orchest.Store.Rows.{AuditEntry, Payload, Result, Time, audit}
use dev_ops_pipeline_orchest.Store.Index.{Index, genesis_hash}
use dev_ops_pipeline_orchest.Store.Transactions.{Env, Platform, Store, Tx, add, begin, commit_tx}

-- sort.Strings on the keys, each with its value
insert_sorted : String × String → Map String → Map String
insert_sorted kv [] = kv ∷ []
insert_sorted (k, v) ((j, w) ∷ m) =
    let rest = insert_sorted (k, v) m in if str_lt j k then (j, w) ∷ rest else (k, v) ∷ (j, w) ∷ m

sort_detail : Map String → Map String
unfolding insert_sorted
sort_detail [] = []
sort_detail (kv ∷ m) = insert_sorted kv (sort_detail m)

-- each key and value, behind a `|`
detail_text : Map String → String
detail_text [] = ""
detail_text ((k, v) ∷ m) = "|" ⧺ (k ⧺ ("=" ⧺ (v ⧺ detail_text m)))

abbrev join_bar : String → String → String
join_bar a b = a ⧺ ("|" ⧺ b)

-- The last audit entry of the records, if there is one, else the chain's head.
abbrev pub chain_head : String → List Payload → String
chain_head prev [] = prev
chain_head prev (audit a ∷ ps) = chain_head a.hash ps
chain_head prev (q ∷ ps) = chain_head prev ps

abbrev pub audit_records : List Payload → ℕ
audit_records [] = 0
audit_records (audit a ∷ ps) = suc (audit_records ps)
audit_records (q ∷ ps) = audit_records ps

abbrev pub append_entry : AuditEntry → Index → Index
append_entry a i = record i { audit = i.audit ++ a ∷ []; audit_head = a.hash }

module _ (p : Platform) where
  -- auditHash
  unfoldable pub audit_hash : String → AuditEntry → String
  unfolding detail_text sort_detail
  audit_hash prev e = p.sha256_hex (
      join_bar prev (
        join_bar (p.format_time e.at)
          (join_bar e.actor (join_bar e.action (e.resource ⧺ detail_text (sort_detail e.detail))))))

  -- the entry as it is chained: `ID`, `PrevHash` and `Hash` are set
  abbrev pub chained : Store → List Payload → AuditEntry → AuditEntry
  chained s recs e =
      let e' = record e {
        id = length s.audit + 1 + audit_records recs;
        prev_hash = chain_head s.audit_head recs;
      } in
      record e' { hash = audit_hash (chain_head s.audit_head recs) e' }

  -- Store.appendAuditTx
  abbrev pub add_audit : Store → AuditEntry → Tx → Tx
  add_audit s e tx = let a = chained s tx.recs e in add (audit a) (append_entry a) tx

  -- Store.AppendAudit
  unfoldable pub append_audit : Env → AuditEntry → Store → Result (Unit {0}) × Store
  append_audit env e s =
      let e' = if e.at == 0 then record e { at = env.now } else e in
      commit_tx p env (add_audit s e' begin) s

  -- The loop of VerifyAudit from the entry before: `true` means that no link is broken. `auditHash`
  -- reads neither `ID` nor the two hashes of an entry.
  unfoldable pub verify_from : String → Option Time → List AuditEntry → Bool
  verify_from prev before [] = true
  verify_from prev before (e ∷ es) =
      if not (e.prev_hash == prev)
      then false
      else if not (audit_hash prev e == e.hash)
      then false
      else if elim before [ none ↦ false | some t ↦ ltb e.at t ]
      then false
      else verify_from e.hash (some e.at) es

  -- Store.VerifyAudit
  unfoldable pub verify_audit : Store → Bool
  unfolding verify_from
  verify_audit s = verify_from genesis_hash none s.audit
