-- ===== src/Engine/Fixtures.antt =====
-- A configuration, a world and a machine for the examples of the executor.
use dev_ops_pipeline_orchest.Prelude.{[], false, none, some, true, ◌*◌, ◌+◌, ◌∷◌}
use dev_ops_pipeline_orchest.Store.State.{pending}
use dev_ops_pipeline_orchest.Store.Rows.{Deployment, second}
use dev_ops_pipeline_orchest.Store.Transactions.{Store}
use dev_ops_pipeline_orchest.Store.Fixtures.{at_time, lax_platform, new_row}
use dev_ops_pipeline_orchest.Engine.World.{Machine, World, deployed_as, live_version, shifted}
use dev_ops_pipeline_orchest.Config.Schema.{AppEnv, Config, recreate}
use dev_ops_pipeline_orchest.Store.Index.{empty_index}

abbrev pub test_env : AppEnv
test_env = record {
  app = "a";
  name = "p";
  provider = "fake";
  provider_cfg = [];
  strategy = record { kind = recreate; batch_size = ""; steps = [] };
  promote_from = "";
  verify = record {
    min_samples = 0;
    failure_threshold = 1;
    success_threshold = 1;
    max_inconclusive = 0;
    criteria = [];
  };
  bake = 0;
  gates = [];
  rollback = record { automatic = true; check_migration_floor = false; max_attempts = 2 };
}

abbrev pub test_config : Config
test_config = record {
  apps = ("a", record { name = "a"; environments = ("p", test_env) ∷ [] }) ∷ [];
  environments = [];
  roles = [];
  identities = [];
}

-- Nobody else calls, every record is written, and the provider does what it is asked to.
abbrev pub calm_world : World
calm_world = record {
  platform = lax_platform;
  config = test_config;
  node_id = "n1";
  notifiers = "dashboard" ∷ [];
  manifests = none;
  floats = record { zero_float = 0; less = λ a b. false; at_most = λ a b. true; divide = λ a b. 0 };
  env = λ n. at_time (second + n);
  others = λ n. [];
  cancelled = λ n. false;
  lost = λ n. false;
  message = λ c. "failed";
  plan_reason = λ p. "";
  encode_event = λ e. some "event";
  registered = λ name. true;
  valid_target = λ e. true;
  shifts_traffic = λ name. false;
  current = λ n. live_version "v0";
  deploy = λ n r. deployed_as "h" "";
  shift = λ n k. shifted;
  bake_rounds = λ n d. [];
  moment = λ t z. none;
}

abbrev pub waiting_row : Deployment
waiting_row = record new_row { state = pending; created_at = 1; idempotency_key = "" }

abbrev pub first_store : Store
first_store = record {
  index = record empty_index { order = "d1" ∷ []; deployments = ("d1", waiting_row) ∷ [] };
  lease_ttl = 60 * second;
  journal = record { file = []; seq = 0; syncs = 0; written = 0 };
}

abbrev pub at_start : Machine
at_start = record { store = first_store; dep = waiting_row; clock = 0; trace = [] }
