-- ===== src/Engine/Events.antt =====
-- internal/engine/executor.go: the events and the transition that carries them.
use dev_ops_pipeline_orchest.Prelude.{
  List, String, [], if◌then◌else◌, map, none, some, true, ◌==◌, ◌∷◌, ◌⧺◌, string_eq, nat_eq,
}
use dev_ops_pipeline_orchest.Store.State.{
  State, aborted, await_approval, deploying, failed, pages, pending, preflight, promoting,
  rollback_failed, rolled_back, rolling_back, state_name, succeeded, unknown, unset, verifying,
}
use dev_ops_pipeline_orchest.Store.Rows.{AuditEntry, Deployment, OutboxEntry, Time, resource}
use dev_ops_pipeline_orchest.Store.Deployments.{transition, update_deployment}
use dev_ops_pipeline_orchest.Engine.World.{
  Cause, Event, M, World, call, emit, encode_failed, entered, fail, if_some, ignore, modify,
  now_time, pure, the_dep, with_error, with_state, ◌>>=◌, ◌>>◌,
}

-- strings.ToLower(string(s))
abbrev pub lower_name : State → String
lower_name pending = "pending"
lower_name preflight = "preflight"
lower_name await_approval = "await_approval"
lower_name deploying = "deploying"
lower_name verifying = "verifying"
lower_name promoting = "promoting"
lower_name succeeded = "succeeded"
lower_name rolling_back = "rolling_back"
lower_name rolled_back = "rolled_back"
lower_name rollback_failed = "rollback_failed"
lower_name failed = "failed"
lower_name aborted = "aborted"
lower_name unknown = "unknown"
lower_name unset = ""

-- EventType
unfoldable pub event_type_of : State → String
event_type_of pending = "started"
event_type_of preflight = "started"
event_type_of await_approval = "awaiting_approval"
event_type_of rolling_back = "rolling_back"
event_type_of rolled_back = "rolled_back"
event_type_of rollback_failed = "rollback_failed"
event_type_of s = lower_name s

abbrev pub event_at : Deployment → State → String → Time → Event
event_at d state reason at = record {
  event_type = event_type_of state;
  deployment_id = d.id;
  app = d.app;
  environment = d.environment;
  version = d.version;
  previous = d.previous_version;
  state = state;
  actor = d.triggered_by;
  strategy = d.strategy;
  reason = reason;
  pages = pages state;
  detail = [];
  at = at;
}

-- One entry for each destination; a JSON text is the parameter `encode_event`.
abbrev pub notes_for : List String → Deployment → State → String → List OutboxEntry
notes_for names d to payload =
    map
      (λ name. record {
        id = 0;
        created_at = 0;
        notifier = name;
        payload = payload;
        attempts = 0;
        next_attempt = 0;
        delivered_at = none;
        last_error = "";
        dedupe_key = d.id ⧺ (":" ⧺ (state_name to ⧺ (":" ⧺ name)));
      })
      names

-- the audit entry; the reason is redacted where the event is made
abbrev pub moved_entry : Deployment → State → String → Time → AuditEntry
moved_entry d to reason at = record {
  id = 0;
  at = at;
  actor = d.triggered_by;
  action = "deployment." ⧺ lower_name to;
  resource = resource d;
  detail =
      ("deployment", d.id)
      ∷ ("version", d.version)
      ∷ ("from", state_name d.state)
      ∷ ("to", state_name to)
      ∷ (if reason == "" then [] else ("reason", reason) ∷ []);
  prev_hash = "";
  hash = "";
}

module _ (w : World) where
  -- Executor.eventFor
  unfoldable pub event_for : State → String → M Event
  event_for state reason = do d ← the_dep; at ← now_time w; pure (event_at d state reason at)

  -- Executor.failedEvent, inconclusiveEvent, pageEvent, unsafeRollbackEvent
  unfoldable pub failed_event : Cause → M Event
  failed_event cause = event_for failed (w.message cause)

  unfoldable pub inconclusive_event : Cause → M Event
  inconclusive_event cause = do
    ev ← event_for failed (w.message cause)
    pure (record ev {
      detail =
          ("verdict", "inconclusive")
          ∷ ("action", "held for a human; no automatic rollback on missing data")
          ∷ [];
    })

  unfoldable pub page_event : Cause → M Event
  page_event cause = do
    ev ← event_for rollback_failed (w.message cause)
    pure (record ev {
      pages = true;
      detail = ("action", "PRODUCTION IS IN AN UNKNOWN STATE. A human must look at this.") ∷ [];
    })

  unfoldable pub unsafe_rollback_event : Cause → Cause → M Event
  unsafe_rollback_event cause refusal = do
    ev ← page_event cause
    pure (record ev {
      detail =
          (
            "action",
            "the deploy failed AND rollback was refused as unsafe; roll forward with a fix",
          )
          ∷ ("rollback_refused", w.message refusal)
          ∷ [];
    })

  -- the part of transitionAndNotify behind the encoding
  unfoldable pub persist : State → String → String → M (Unit {0})
  persist to reason payload = do
    d ← the_dep
    at ← now_time w
    call w (λ env.
        transition w.platform env d.id d.fence d.state to (some (moved_entry d to reason at))
          (notes_for w.notifiers d to payload))
    modify (with_state to)
    emit (entered to)

  -- Executor.transitionAndNotify
  unfoldable pub transition_and_notify : State → Event → M (Unit {0})
  transition_and_notify to ev =
      if_some (w.encode_event ev) (persist to ev.reason) (fail encode_failed)

  -- a transition with the event that an operation makes for it, whose error is dropped
  unfoldable pub try_move : State → M Event → M (Unit {0})
  try_move to make = do ev ← make; ignore (transition_and_notify to ev)

  -- Executor.recordError: an error of the store is logged and dropped
  unfoldable pub record_error : Cause → M (Unit {0})
  record_error cause = do
    modify (with_error (w.message cause))
    d ← the_dep
    ignore (call w (λ env. update_deployment w.platform env d))
