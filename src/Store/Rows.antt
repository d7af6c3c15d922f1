-- ===== src/Store/Rows.antt =====
-- internal/store/model.go: the rows of the store, and internal/store/journal.go: its records.
-- A time is a count of nanoseconds since Go's zero time, which is 0; a duration is a count of
-- nanoseconds. The int64 counters (fence tokens, row ids, attempts) are plain numbers. A float64 is
-- its bit pattern. A pointer that may be nil is an `Option`.
use dev_ops_pipeline_orchest.Prelude.{
  Bool, Map, Option, String, false, if◌then◌else◌, ltb, none, not, some, true, ℕ, ◌⧺◌,
}
use dev_ops_pipeline_orchest.Store.State.{State}

abbrev pub Time : Type 0
Time = ℕ

abbrev pub Duration : Type 0
Duration = ℕ

abbrev pub Float64 : Type 0
Float64 = ℕ

abbrev pub second : Duration
second = 1_000_000_000

-- TriggerSource is a string type
pub record Deployment : Type 0 where
  pub id : String
  pub app : String
  pub environment : String
  pub version : String
  pub previous_version : String
  pub strategy : String
  pub state : State
  pub idempotency_key : String
  pub triggered_by : String
  pub trigger_source : String
  pub provider : String
  pub provider_handle : String
  pub is_rollback : Bool
  pub rollback_of : String
  pub created_at : Time
  pub updated_at : Time
  pub finished_at : Option Time
  pub error : String
  pub slack_ts : String
  pub fence : ℕ

-- Deployment.Resource
unfoldable pub resource : Deployment → String
resource d = "app:" ⧺ (d.app ⧺ ("/env:" ⧺ d.environment))

pub record Step : Type 0 where
  pub deployment_id : String
  pub seq : ℕ
  pub name : String
  pub state : String
  pub started_at : Option Time
  pub finished_at : Option Time
  pub output : String
  pub error : String

pub record Lease : Type 0 where
  pub resource : String
  pub holder : String
  pub owner_node : String
  pub acquired_at : Time
  pub expires_at : Time
  pub fence_token : ℕ

-- Lease.Expired
unfoldable pub expired : Lease → Time → Bool
expired l now = not (ltb now l.expires_at)

pub record HealthSample : Type 0 where
  pub deployment_id : String
  pub verifier : String
  pub criterion : String
  pub at : Time
  pub value : Float64
  pub baseline : Float64
  pub healthy : Bool
  pub note : String

-- The detail map is listed by its keys.
pub record AuditEntry : Type 0 where
  pub id : ℕ
  pub at : Time
  pub actor : String
  pub action : String
  pub resource : String
  pub detail : Map String
  pub prev_hash : String
  pub hash : String

pub record OutboxEntry : Type 0 where
  pub id : ℕ
  pub created_at : Time
  pub notifier : String
  pub payload : String
  pub attempts : ℕ
  pub next_attempt : Time
  pub delivered_at : Option Time
  pub last_error : String
  pub dedupe_key : String

-- OutboxEntry.Delivered
unfoldable pub delivered : OutboxEntry → Bool
delivered o = elim o.delivered_at [ none ↦ false | some _ ↦ true ]

pub record Approval : Type 0 where
  pub deployment_id : String
  pub user : String
  pub at : Time
  pub source : String

pub record Freeze : Type 0 where
  pub resource : String
  pub reason : String
  pub by : String
  pub at : Time
  pub until : Option Time
  pub lifted : Bool
  pub lifted_by : String

-- Freeze.Active
unfoldable pub freeze_active : Freeze → Time → Bool
freeze_active f now =
    if f.lifted then false else elim f.until [ none ↦ true | some t ↦ not (ltb t now) ]

-- What a journal record carries, by its kind; `commit` carries nothing, and `other` is a kind that
-- the store does not know.
pub data Payload : Type 0 where
  deployment : Deployment → Payload
  step : Step → Payload
  lease lease_release : Lease → Payload
  audit : AuditEntry → Payload
  outbox outbox_state : OutboxEntry → Payload
  health : HealthSample → Payload
  approval : Approval → Payload
  freeze : Freeze → Payload
  commit : Payload
  other : String → Payload

pub record Record : Type 0 where
  pub payload : Payload
  pub seq : ℕ

-- The store's errors, without their texts. `io` is a failure of the file or of the encoding,
-- `panicked` a nil dereference.
pub data StoreError : Type 0 where
  not_found stale_fence already_exists use_transition io corrupt cancelled panicked : StoreError
  lease_held : String → Time → StoreError
  unexpected_state : State → State → StoreError
  illegal_transition : State → State → StoreError

pub data Result {ℓ} (A : Type ℓ) : Type ℓ where
  ok : A → Result A
  err : StoreError → Result A
