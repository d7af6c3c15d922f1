-- ===== src/Store/Index.antt =====
-- internal/store/store.go: the in-memory index, and how one journal record changes it.
use dev_ops_pipeline_orchest.Prelude.{
  List, Map, String, [], if◌then◌else◌, insert, lookup, ltb, none, some, ℕ, ◌++◌, ◌==◌, ◌∷◌,
  string_eq, nat_eq,
}
use dev_ops_pipeline_orchest.Store.State.{state_eq}
use dev_ops_pipeline_orchest.Store.Rows.{
  Approval, AuditEntry, Deployment, Freeze, HealthSample, Lease, OutboxEntry, Payload, Result, Step,
  Time, approval, audit, corrupt, deployment, err, freeze, health, lease, lease_release, ok, outbox,
  outbox_state, step,
}

-- GenesisHash
abbrev pub genesis_hash : String
genesis_hash = "0000000000000000000000000000000000000000000000000000000000000000"

-- The maps and lists of `Store`.
pub record Index : Type 0 where
  pub deployments : Map Deployment
  pub order : List String
  pub by_idem_key : Map String
  pub steps : Map (List Step)
  pub leases : Map Lease
  pub samples : Map (List HealthSample)
  pub approvals : Map (List Approval)
  pub freezes : Map Freeze
  pub audit : List AuditEntry
  pub audit_head : String
  pub outbox : List OutboxEntry
  pub outbox_seq : ℕ

abbrev pub empty_index : Index
empty_index = record {
  deployments = [];
  order = [];
  by_idem_key = [];
  steps = [];
  leases = [];
  samples = [];
  approvals = [];
  freezes = [];
  audit = [];
  audit_head = genesis_hash;
  outbox = [];
  outbox_seq = 0;
}

-- m[k] on a map of slices: a missing key has the nil slice
abbrev pub slice {ℓ} : {A : Type ℓ} → String → Map (List A) → List A
slice k m = elim (lookup k m) [ none ↦ [] | some xs ↦ xs ]

unfoldable pub replace_step : Step → List Step → List Step
replace_step st [] = st ∷ []
replace_step st (x ∷ xs) = if x.seq == st.seq then st ∷ xs else x ∷ replace_step st xs

-- Store.putStep
unfoldable pub put_step : Step → Index → Index
put_step st i = record i {
  steps = insert st.deployment_id (replace_step st (slice st.deployment_id i.steps)) i.steps;
}

-- A release keeps the row, so that fence tokens go on rising.
unfoldable pub drop_lease : String → String → Time → Index → Index
drop_lease r holder at i = elim (lookup r i.leases) [
  | none ↦ i
  | some cur ↦
      if cur.holder == holder
      then record i { leases = insert r (record cur { expires_at = at; holder = "" }) i.leases }
      else i
]

-- what an `outbox_state` record changes of an entry
abbrev pub take_state : OutboxEntry → OutboxEntry → OutboxEntry
take_state o e = record e {
  attempts = o.attempts;
  next_attempt = o.next_attempt;
  delivered_at = o.delivered_at;
  last_error = o.last_error;
}

unfoldable pub set_states : OutboxEntry → List OutboxEntry → List OutboxEntry
set_states o [] = []
set_states o (e ∷ es) = (if e.id == o.id then take_state o e else e) ∷ set_states o es

unfoldable pub put_deployment : Deployment → Index → Index
put_deployment d i = record i {
  deployments = insert d.id d i.deployments;
  order = elim (lookup d.id i.deployments) [ none ↦ i.order ++ d.id ∷ [] | some _ ↦ i.order ];
  by_idem_key =
      if d.idempotency_key == ""
      then i.by_idem_key
      else insert d.idempotency_key d.id i.by_idem_key;
}

-- Store.applyRecord
unfoldable pub apply_record : Payload → Index → Result Index
apply_record (deployment d) i = ok (put_deployment d i)
apply_record (step st) i = ok (put_step st i)
apply_record (lease l) i = ok (record i { leases = insert l.resource l i.leases })
apply_record (lease_release l) i = ok (drop_lease l.resource l.holder l.expires_at i)
apply_record (audit a) i = ok (record i { audit = i.audit ++ a ∷ []; audit_head = a.hash })
apply_record (outbox o) i = ok (record i {
  outbox = i.outbox ++ o ∷ [];
  outbox_seq = if ltb i.outbox_seq o.id then o.id else i.outbox_seq;
})
apply_record (outbox_state o) i = ok (record i { outbox = set_states o i.outbox })
apply_record (health h) i = ok (record i {
  samples = insert h.deployment_id (slice h.deployment_id i.samples ++ h ∷ []) i.samples;
})
apply_record (approval a) i = ok (record i {
  approvals = insert a.deployment_id (slice a.deployment_id i.approvals ++ a ∷ []) i.approvals;
})
apply_record (freeze f) i = ok (record i { freezes = insert f.resource f i.freezes })
apply_record _ i = err corrupt
