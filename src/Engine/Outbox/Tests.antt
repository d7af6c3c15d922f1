-- ===== src/Engine/Outbox/Tests.antt =====
-- Examples for the outbox: waits, due notes, and a pass of the worker.
use dev_ops_pipeline_orchest.Prelude.{
  String, [], arith, false, if◌then◌else◌, none, refl, some, take, ℕ, ◌*◌, ◌==◌, ◌^◌, ◌∷◌, ◌≡◌, ◌≤◌,
  string_eq, nat_eq,
}
use dev_ops_pipeline_orchest.Store.Rows.{OutboxEntry, delivered, second}
use dev_ops_pipeline_orchest.Store.Transactions.{Store}
use dev_ops_pipeline_orchest.Store.Operations.{empty_store}
use dev_ops_pipeline_orchest.Store.Outbox.{backoff, due_outbox, find_entry}
use dev_ops_pipeline_orchest.Store.Outbox.Delivery.{backoff_lem, due_only, due_outbox_lem}
use dev_ops_pipeline_orchest.Store.Fixtures.{at_time, lax_platform}
use dev_ops_pipeline_orchest.Engine.Outbox.{Round, accepted, drain, refused}
use dev_ops_pipeline_orchest.Engine.Outbox.Retries.{refused_is_kept}

abbrev note_with : ℕ → String → OutboxEntry
note_with n name = record {
  id = n;
  created_at = 1;
  notifier = name;
  payload = "{}";
  attempts = 0;
  next_attempt = 1;
  delivered_at = none;
  last_error = "";
  dedupe_key = "";
}

abbrev two_notes : Store
two_notes =
    let s = empty_store 30 in
    record s {
      index = record s.index {
        outbox = note_with 1 "stdout" ∷ note_with 2 "slack" ∷ [];
        outbox_seq = 2;
      };
    }

-- Slack is down.
abbrev slack_down : OutboxEntry → Round
slack_down e = record {
  ended = false;
  reply = if e.id == 2 then refused "timeout" else accepted;
  env = at_time 9;
}

slack_refuses :
    (x : OutboxEntry) → x.id ≡ 2 → (cause : String) × ((slack_down x).reply ≡ refused cause)
slack_refuses x e = ("timeout", ground arith)

refused_is_kept_example :
    (e' : OutboxEntry) × (find_entry 2
        (drain lax_platform slack_down (at_time 9) 0 two_notes).1.outbox
      ≡ some e')
    × (delivered e' ≡ false)
unfolding find_entry delivered
refused_is_kept_example =
    refused_is_kept lax_platform slack_down (at_time 9) 0 2 two_notes (note_with 2 "slack") refl
      refl slack_refuses

backoff_lem_example : (9 ≤ 8 → backoff 9 ≡ 2 ^ 9 * second) × (8 ≤ 9 → backoff 9 ≡ 256 * second)
backoff_lem_example = backoff_lem 9

due_outbox_lem_example : due_outbox (at_time 9) 1 two_notes ≡ (
    if ◌==◌ {T = ℕ} 1 0 then due_only 9 two_notes.outbox else take 1 (due_only 9 two_notes.outbox))
due_outbox_lem_example = due_outbox_lem (at_time 9) 1 two_notes
