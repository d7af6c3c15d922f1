-- ===== src/Store/Fixtures.antt =====
-- Concrete values for the tests: platforms, clocks and rows.
use dev_ops_pipeline_orchest.Prelude.{
  Option, [], arith, eq_iff, false, if◌then◌else◌, length, none, refl, some, suc, zero, ℕ, ◌&&◌,
  ◌<◌, ◌==◌, ◌∷◌, ◌≡◌, string_eq, nat_eq,
}
use dev_ops_pipeline_orchest.Store.State.{unset}
use dev_ops_pipeline_orchest.Store.Rows.{Deployment, Payload, Record, commit, lease}
use dev_ops_pipeline_orchest.Store.Journal.{Bytes, Codec, IsCodec, durable}
use dev_ops_pipeline_orchest.Store.Transactions.{Env, Platform}

-- A codec for the markers and the leases of one holder of one resource.
abbrev encode_payload : Payload → ℕ → Option Bytes
encode_payload commit n = some (0 ∷ n ∷ [])
encode_payload (lease l) n =
    if l.resource == "app:a/env:p" && (l.holder == "d1" && l.owner_node == "n1")
    then some (1 ∷ n ∷ l.acquired_at ∷ l.expires_at ∷ l.fence_token ∷ [])
    else none
encode_payload _ n = none

abbrev decode_payload : Bytes → Option Record
decode_payload (zero ∷ n ∷ []) = some (record { payload = commit; seq = n })
decode_payload (suc zero ∷ n ∷ a ∷ x ∷ t ∷ []) = some (record {
  payload = lease (record {
    resource = "app:a/env:p";
    holder = "d1";
    owner_node = "n1";
    acquired_at = a;
    expires_at = x;
    fence_token = t;
  });
  seq = n;
})
decode_payload _ = none

abbrev pub lease_codec : Codec
lease_codec = record {
  marshal = λ r. encode_payload r.payload r.seq;
  unmarshal = decode_payload;
  crc32 = λ b. 7;
}

decode-encode :
    (q : Payload) (n : ℕ) (b : Bytes)
    → encode_payload q n ≡ some b
    → (decode_payload b ≡ some (record { payload = q; seq = n })) × (length b < 4294967296)
decode-encode commit n b e =
    let same : 0 ∷ n ∷ [] ≡ b = ground arith in rw (← same) (refl, omega arith)
decode-encode (lease l) n b e =
    let r : l.resource ≡ "app:a/env:p" = ground (arith, eq_iff l.resource "app:a/env:p") in
    let h : l.holder ≡ "d1" = ground (arith, eq_iff l.holder "d1") in
    let o : l.owner_node ≡ "n1" = ground (arith, eq_iff l.owner_node "n1") in
    let same : 1 ∷ n ∷ l.acquired_at ∷ l.expires_at ∷ l.fence_token ∷ [] ≡ b = ground arith in
    rw (← same) (rw (r, h, o) refl, omega arith)
decode-encode _ n b e = absurd (ground arith)

pub lease_codec-IsCodec : IsCodec lease_codec
lease_codec-IsCodec = record {
  round_trip = λ r b e. (decode-encode r.payload r.seq b e).0;
  short = λ r b e. (decode-encode r.payload r.seq b e).1;
  crc_bound = λ b. omega arith;
}

abbrev pub lease_platform : Platform
lease_platform = record { codec = lease_codec; sha256_hex = λ s. s; format_time = λ t. "t" }

-- A platform that takes every record, without a way back.
abbrev pub lax_platform : Platform
lax_platform = record {
  codec = record { marshal = λ r. some (r.seq ∷ []); unmarshal = λ b. none; crc32 = λ b. 7 };
  sha256_hex = λ s. s;
  format_time = λ t. "t";
}

abbrev pub at_time : ℕ → Env
at_time n = record { now = n; disk = durable }

abbrev pub new_row : Deployment
new_row = record {
  id = "d1";
  app = "a";
  environment = "p";
  version = "v1";
  previous_version = "";
  strategy = "rolling";
  state = unset;
  idempotency_key = "k1";
  triggered_by = "u1";
  trigger_source = "cli";
  provider = "fake";
  provider_handle = "";
  is_rollback = false;
  rollback_of = "";
  created_at = 0;
  updated_at = 0;
  finished_at = none;
  error = "";
  slack_ts = "";
  fence = 0;
}
