-- ===== src/Engine/World.antt =====
-- internal/engine/executor.go: what the executor works on and with. An operation of the executor is a
-- function of the `Machine`; the store's methods are called one by one, and other processes may call
-- methods of their own before each of them.
pub mod Frames
pub mod Triples
use dev_ops_pipeline_orchest.Prelude.{
  Bool, List, Map, Option, String, [], if◌then◌else◌, none, some, true, ℕ, ◌+◌, ◌∷◌, string_eq,
  nat_eq,
}
use dev_ops_pipeline_orchest.Store.State.{State}
use dev_ops_pipeline_orchest.Store.Rows.{Deployment, Duration, Result, StoreError, Time, err, ok}
use dev_ops_pipeline_orchest.Store.Transactions.{Env, Platform, Store}
use dev_ops_pipeline_orchest.Store.Operations.{Op, run_op}
use dev_ops_pipeline_orchest.Config.Schema.{AppEnv, Config, Moment, StrategyType}
use dev_ops_pipeline_orchest.Engine.Verify.{Criterion, Floats, Probe}
use dev_ops_pipeline_orchest.Engine.Rollback.{Manifests, Plan, Refusal}

-- engine.Event
pub record Event : Type 0 where
  pub event_type : String
  pub deployment_id : String
  pub app : String
  pub environment : String
  pub version : String
  pub previous : String
  pub state : State
  pub actor : String
  pub strategy : String
  pub reason : String
  pub pages : Bool
  pub detail : Map String
  pub at : Time

-- Why an operation of the engine fails, by the error's type and without its text. `blocked_deploy`
-- is BlockedError, and `rollback_refused` UnsafeRollbackError. No error of the source is
-- `out_of_polls`: a wait on fuel ends with it.
pub data Cause : Type 0 where
  blocked_deploy inconclusive_verdict failed_verdict lease_lost already_ended unknown_target : Cause
  no_provider invalid_target unsupported_strategy unreadable_version unknown_version : Cause
  context_ended out_of_polls bad_timezone encode_failed deploy_failed shift_failed : Cause
  unexpected_version : Cause
  no_recovery : State → State → Cause
  rolled_back_after : Cause → Cause
  rollback_refused : Refusal → Cause
  store_failed : StoreError → Cause

-- provider.DeployRequest, with its target's configuration left out
pub record DeployRequest : Type 0 where
  pub app : String
  pub environment : String
  pub provider : String
  pub version : String
  pub previous : String
  pub idempotency_key : String
  pub fence : ℕ
  pub strategy : StrategyType
  pub batch_size : String
  pub is_rollback : Bool

-- What a provider answers. The text is what it wrote to its output, redacted.
pub data Current : Type 0 where
  unreadable unknown_live : Current
  live_version : String → Current

pub data DeployReply : Type 0 where
  deployed_as : String → String → DeployReply
  deploy_refused : String → DeployReply

pub data ShiftReply : Type 0 where
  shifted unsupported shift_refused : ShiftReply

-- What is done to the outside, and which states were persisted, in a run.
pub data Effect : Type 0 where
  entered : State → Effect
  deploy_call rollback_call : DeployRequest → Effect
  shift_call : ℕ → Effect
  abort_call : String → Effect

-- The executor's fields and what lies outside: its answers may differ at each moment, which is
-- the number of calls made so far.
pub record World : Type 0 where
  pub platform : Platform
  pub config : Config
  pub node_id : String
  pub notifiers : List String
  pub manifests : Option Manifests
  pub floats : Floats
  pub env : ℕ → Env
  pub others : ℕ → List (Env × Op)
  pub cancelled : ℕ → Bool
  pub lost : ℕ → Bool
  pub message : Cause → String
  pub plan_reason : Plan → String
  pub encode_event : Event → Option String
  pub registered : String → Bool
  pub valid_target : AppEnv → Bool
  pub shifts_traffic : String → Bool
  pub current : ℕ → Current
  pub deploy : ℕ → DeployRequest → DeployReply
  pub shift : ℕ → ℕ → ShiftReply
  pub bake_rounds : ℕ → Duration → List (Option (Criterion → Probe))
  pub moment : Time → String → Option Moment

-- `dep` is the row in memory, which the steps change in place; the newest effect stands first.
pub record Machine : Type 0 where
  pub store : Store
  pub dep : Deployment
  pub clock : ℕ
  pub trace : List Effect

pub data Outcome (A : Type 0) : Type 0 where
  done : A → Outcome A
  failure : Cause → Outcome A

abbrev pub M : Type 0 → Type 0
M A = Machine → Outcome A × Machine

unfoldable pub pure : {A : Type 0} → A → M A
pure a m = (done a, m)

unfoldable pub fail : {A : Type 0} → Cause → M A
fail c m = (failure c, m)

abbrev pub continue_with : {A B : Type 0} → (A → M B) → Outcome A × Machine → Outcome B × Machine
continue_with f (done a, m) = f a m
continue_with f (failure c, m) = (failure c, m)

infixl 5 ◌>>=◌ ◌>>◌
unfoldable pub ◌>>=◌ : {A B : Type 0} → M A → (A → M B) → M B
◌>>=◌ x f m = continue_with f (x m)

abbrev pub ◌>>◌ : {B : Type 0} → M (Unit {0}) → M B → M B
x >> y = x >>= λ _. y

-- `_ = x`
unfoldable pub ignore : M (Unit {0}) → M (Unit {0})
ignore x m = (done tt, (x m).1)

-- `if err != nil`
abbrev pub caught :
    {A B : Type 0} → (Cause → M B) → (A → M B) → Outcome A × Machine → Outcome B × Machine
caught h f (failure c, m) = h c m
caught h f (done a, m) = f a m

unfoldable pub on_error : {A B : Type 0} → M A → (Cause → M B) → (A → M B) → M B
on_error x h f m = caught h f (x m)

unfoldable pub if_some : {A B : Type 0} → Option A → (A → M B) → M B → M B
if_some none f y = y
if_some (some a) f y = f a

-- `defer`, of a call whose error is logged or dropped
unfoldable pub defer : {A : Type 0} → M (Unit {0}) → M A → M A
defer last x m = ((x m).0, (last (x m).1).1)

unfoldable pub guard : Bool → Cause → M (Unit {0})
guard b c = if b then pure tt else fail c

unfoldable pub the_dep : M Deployment
the_dep m = (done m.dep, m)

-- an assignment to fields of the row in memory
unfoldable pub modify : (Deployment → Deployment) → M (Unit {0})
modify g m = (done tt, record m { dep = g m.dep })

abbrev pub the_row : Deployment → Deployment → Deployment
the_row d old = d

abbrev pub with_state : State → Deployment → Deployment
with_state s d = record d { state = s }

abbrev pub with_error : String → Deployment → Deployment
with_error e d = record d { error = e }

abbrev pub with_fence : ℕ → Deployment → Deployment
with_fence n d = record d { fence = n }

abbrev pub with_previous : String → Deployment → Deployment
with_previous v d = record d { previous_version = v }

abbrev pub with_handle : String → Deployment → Deployment
with_handle h d = record d { provider_handle = h }

abbrev pub as_rollback : Deployment → Deployment
as_rollback d = record d { is_rollback = true }

unfoldable pub emit : Effect → M (Unit {0})
emit e m = (done tt, record m { trace = e ∷ m.trace })

-- an answer from outside
unfoldable pub ask : {A : Type 0} → (ℕ → A) → M A
ask f m = (done (f m.clock), record m { clock = m.clock + 1 })

abbrev pub of_result : {A : Type 0} → Result A → Outcome A
of_result (ok a) = done a
of_result (err e) = failure (store_failed e)

unfoldable pub run_others : Platform → List (Env × Op) → Store → Store
run_others p [] s = s
run_others p ((env, op) ∷ ops) s = run_others p ops (run_op p env op s)

module _ (w : World) where
  -- A call of a method of the store, behind what others call.
  unfoldable pub call : {A : Type 0} → (Env → Store → Result A × Store) → M A
  call f m =
      let r = f (w.env m.clock) (run_others w.platform (w.others m.clock) m.store) in
      (of_result r.0, record m { store = r.1; clock = m.clock + 1 })

  -- a method that only reads
  abbrev pub look : {A : Type 0} → (Env → Store → Result A) → M A
  look f = call (λ env s. (f env s, s))

  -- e.clock.Now()
  abbrev pub now_time : M Time
  now_time = ask (λ n. (w.env n).now)
