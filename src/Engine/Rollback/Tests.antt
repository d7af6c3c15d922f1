-- ===== src/Engine/Rollback/Tests.antt =====
-- Tests and examples for versions and rollbacks.
use dev_ops_pipeline_orchest.Prelude.{
  [], false, lookup, refl, some, true, ◌∷◌, ◌≡◌, string_eq, nat_eq,
}
use dev_ops_pipeline_orchest.Store.State.{succeeded, verifying}
use dev_ops_pipeline_orchest.Store.Rows.{Deployment}
use dev_ops_pipeline_orchest.Store.Transactions.{Store}
use dev_ops_pipeline_orchest.Store.Operations.{empty_store}
use dev_ops_pipeline_orchest.Store.Fixtures.{new_row}
use dev_ops_pipeline_orchest.Engine.Rollback.{
  Manifests, check_migration_floor, codes, fields_from, irreversible, parse_digits, parse_int,
  part_less, parts_less, plan_rollback, plan_to, split_version, text_eq, text_less, version_less,
}
use dev_ops_pipeline_orchest.Engine.Rollback.Versions.{version_less_asym}
use dev_ops_pipeline_orchest.Engine.Rollback.Plans.{Allows, IsTarget, plan_rollback-ok}
use dev_ops_pipeline_orchest.Store.Queries.{first, last_successful_before}

version_less_asym_example :
    (version_less (codes "v1.9") (codes "v1.10") ≡ true
      → version_less (codes "v1.10") (codes "v1.9") ≡ false)
    × (version_less (codes "v1.9") (codes "v1.9") ≡ false)
version_less_asym_example = version_less_asym (codes "v1.9") (codes "v1.10")

-- The comparison goes round in a circle where numbers and texts mix.
circle :
    (version_less (codes "2") (codes "10") ≡ true)
    × (version_less (codes "10") (codes "1a") ≡ true)
    × (version_less (codes "1a") (codes "2") ≡ true)
unfolding version_less parts_less part_less split_version fields_from parse_int parse_digits
    text_less text_eq
circle = (refl, refl, refl)

abbrev old_row : Deployment
old_row = record new_row { id = "d0"; version = "v1.9"; state = succeeded }

abbrev bad_row : Deployment
bad_row = record new_row { version = "v1.10"; state = verifying }

abbrev two_rows : Store
two_rows =
    let s = empty_store 30 in
    record s {
      index = record s.index {
        deployments = ("d0", old_row) ∷ ("d1", bad_row) ∷ [];
        order = "d0" ∷ "d1" ∷ [];
      };
    }

abbrev one_manifest : Manifests
one_manifest app version =
    some
      (record { version = version; schema_version = 1; rollback_floor = "v1.2"; migrations = [] })

plan_rollback-ok_example :
    (target : Deployment) × (plan_to bad_row old_row ≡ plan_to bad_row target)
    × IsTarget bad_row target two_rows
    × ((m : Manifests) → true ≡ true → some one_manifest ≡ some m → Allows m bad_row target)
unfolding plan_rollback last_successful_before first lookup check_migration_floor version_less
    parts_less part_less split_version fields_from parse_int parse_digits text_less text_eq
    irreversible
plan_rollback-ok_example =
    plan_rollback-ok (some one_manifest) true bad_row two_rows (plan_to bad_row old_row) refl
