-- ===== src/Engine/Rollback/Plans.antt =====
-- What a plan of a rollback promises.
use dev_ops_pipeline_orchest.Prelude.{
  Bool, Bool-cases, List, Map, Option, Option-cases, String, [], arith, eq_iff, false,
  if◌then◌else◌, inl, inr, lookup, none, refl, reverse, some, str_lt, subst, true, ◌∷◌, ◌≡◌, ◌≢◌,
  ◌⊎◌, string_eq, nat_eq,
}
use dev_ops_pipeline_orchest.Store.State.{succeeded, state_eq}
use dev_ops_pipeline_orchest.Store.Rows.{Deployment, Result, err, ok}
use dev_ops_pipeline_orchest.Store.Transactions.{Store}
use dev_ops_pipeline_orchest.Store.Queries.{first, last_successful_before}
use dev_ops_pipeline_orchest.Engine.Rollback.{
  Manifest, Manifests, Migration, Plan, Refusal, check_migration_floor, codes, floor_broken,
  irreversible, is_nil, no_target, plan_rollback, plan_to, schema_broken, version_less,
}

first-ok :
    (usable : String → Bool) (keep : Deployment → Bool) (m : Map Deployment) (ids : List String)
    (d : Deployment)
    → first usable keep m ids ≡ ok d
    → (id : String) × (lookup id m ≡ some d) × (usable id ≡ true) × (keep d ≡ true)
unfolding first
first-ok usable keep m [] d h = absurd (ground arith)
first-ok usable keep m (x ∷ ids) d h = elim (Bool-cases (usable x)) [
  | inr skip ↦ first-ok usable keep m ids d (ground arith)
  | inl use_it ↦ elim (Option-cases (lookup x m)) [
    | inl q ↦ absurd (ground arith)
    | inr (y, q) ↦ elim (Bool-cases (keep y)) [
      | inl k ↦
          let same : y ≡ d = ground arith in
          (x, ground arith, use_it, subst (λ z. keep z ≡ true) same k)
      | inr k ↦ first-ok usable keep m ids d (ground arith)
    ]
  ]
]

-- What is known of the version that a rollback goes to.
pub record IsTarget (dep target : Deployment) (s : Store) : Type 0 where
  pub id : String
  pub stored : lookup id s.deployments ≡ some target
  pub earlier : str_lt id dep.id ≡ true
  pub same_app : target.app ≡ dep.app
  pub same_environment : target.environment ≡ dep.environment
  pub succeeded_there : target.state ≡ succeeded

last_successful_before-IsTarget :
    (dep target : Deployment) (s : Store)
    → last_successful_before dep.app dep.environment dep.id s ≡ ok target
    → IsTarget dep target s
unfolding last_successful_before
last_successful_before-IsTarget dep target s h =
    let (id, q, u, k) = first-ok _ _ s.deployments (reverse s.order) target h in
    record {
      id = id;
      stored = q;
      earlier = u;
      same_app = ground (arith, eq_iff target.app dep.app);
      same_environment = ground (arith, eq_iff target.environment dep.environment);
      succeeded_there = ground (arith, state_eq.beq_iff target.state succeeded);
    }

-- The manifests allow the way back: the running version's manifest is known, the target is not before
-- its floor, and its schema is the target's, where that is known, or no migration of it is
-- irreversible.
pub record Allows (source : Manifests) (dep target : Deployment) : Type 0 where
  pub current : Manifest
  pub known : source dep.app dep.version ≡ some current
  pub above_floor :
      current.rollback_floor ≢ ""
      → version_less (codes target.version) (codes current.rollback_floor) ≡ false
  pub schema :
      (there : Manifest)
      → source target.app target.version ≡ some there
      → (there.schema_version ≡ current.schema_version) ⊎ (irreversible current.migrations ≡ [])

is_nil-nil : (xs : List Migration) → is_nil xs ≡ true → xs ≡ []
is_nil-nil [] h = refl
is_nil-nil (x ∷ xs) h = absurd (ground arith)

check_migration_floor-Allows :
    (source : Manifests) (dep target : Deployment)
    → check_migration_floor (some source) dep target ≡ none
    → Allows source dep target
unfolding check_migration_floor
check_migration_floor-Allows source dep target h =
    elim (Option-cases (source dep.app dep.version)) [
      | inl q ↦ absurd (ground arith)
      | inr (cur, q) ↦
          let floor : floor_broken target cur ≡ false = ground arith in
          let moved : schema_broken cur (source target.app target.version) ≡ false = ground arith in
          record {
            current = cur;
            known = q;
            above_floor = λ n. ground (arith, eq_iff cur.rollback_floor "");
            schema = λ there e. ground (
              arith,
              subst (λ o. schema_broken cur o ≡ false) e moved,
              is_nil-nil (irreversible cur.migrations),
            );
          }
    ]

-- A rollback that is planned goes back to the version of an earlier deployment of the same target
-- that succeeded. If the floor is checked and manifests are configured, they allow it: an unknown
-- manifest of the running version, a target below the floor, and a schema that an irreversible
-- migration moved are refused.
pub plan_rollback-ok :
    (source : Option Manifests) (check : Bool) (dep : Deployment) (s : Store) (plan : Plan)
    → plan_rollback source check dep s ≡ inl plan
    → (target : Deployment) × (plan ≡ plan_to dep target)
      × IsTarget dep target s
      × ((m : Manifests) → check ≡ true → source ≡ some m → Allows m dep target)
unfolding plan_rollback
plan_rollback-ok source check dep s plan h =
    go (last_successful_before dep.app dep.environment dep.id s) refl h
  where
    floored : (target : Deployment) → Plan ⊎ Refusal
    floored target =
        if check
        then elim (check_migration_floor source dep target) [
          | some r ↦ inr r
          | none ↦ inl (plan_to dep target)
        ]
        else inl (plan_to dep target)

    go :
        (r : Result Deployment)
        → last_successful_before dep.app dep.environment dep.id s ≡ r
        → elim r as (λ _. Plan ⊎ Refusal) [ err _ ↦ inr no_target | ok target ↦ floored target ]
          ≡ inl plan
        → (target : Deployment) × (plan ≡ plan_to dep target)
          × IsTarget dep target s
          × ((m : Manifests) → check ≡ true → source ≡ some m → Allows m dep target)
    go (err x) e k = absurd (ground arith)
    go (ok target) e k = (
      target,
      ground arith,
      last_successful_before-IsTarget dep target s e,
      λ m c f.
          check_migration_floor-Allows m dep target
            (subst (λ o. check_migration_floor o dep target ≡ none) f (ground arith)),
    )
