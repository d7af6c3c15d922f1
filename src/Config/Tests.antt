-- ===== src/Config/Tests.antt =====
-- The theorem on permissions at a concrete configuration.
use dev_ops_pipeline_orchest.Prelude.{[], false, some, true, ◌↔◌, ◌∷◌, ◌≡◌}
use dev_ops_pipeline_orchest.Config.Schema.{Config, Identity, can}
use dev_ops_pipeline_orchest.Config.Access.{Permission, can_iff}

abbrev approver : Identity
approver = record { user = "u2"; slack_id = ""; email = ""; roles = "lead" ∷ []; disabled = false }

abbrev team : Config
team = record {
  apps = [];
  environments = [];
  roles = ("lead", record { permission = "deploy:approve"; on = "prod" ∷ [] } ∷ []) ∷ [];
  identities = ("u2", approver) ∷ [];
}

can_iff_example :
    (can team (some approver) "deploy:approve" "prod" ≡ true)
    ↔ ((approver.disabled ≡ false) × Permission team approver "deploy:approve" "prod")
can_iff_example = can_iff team approver "deploy:approve" "prod"
