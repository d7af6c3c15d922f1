-- ===== src/Engine/Rollback.antt =====
-- internal/engine/rollback.go: the order of versions, the migration floor, the plan of a rollback and
-- its budget. The texts of a refusal are left out; a version is the list of its code points where it
-- is taken apart, whose order is the one of the bytes.
pub mod Versions
pub mod Plans
pub mod Tests
use Prim.Native.Char.{code}
use dev_ops_pipeline_orchest.Prelude.{
  Bool, List, Option, String, [], false, if◌then◌else◌, inl, inr, leb, ltb, map, none, not, some,
  true, ℕ, ◌%◌, ◌&&◌, ◌*◌, ◌++◌, ◌+◌, ◌-◌, ◌==◌, ◌^◌, ◌||◌, ◌∷◌, ◌⊎◌, string_eq, nat_eq,
}
use dev_ops_pipeline_orchest.Store.Rows.{Deployment, Result, err, ok, second}
use dev_ops_pipeline_orchest.Store.Transactions.{Env, Store}
use dev_ops_pipeline_orchest.Store.Queries.{count_rollbacks, last_successful_before}

abbrev pub Text : Type 0
Text = List ℕ

abbrev pub codes : String → Text
codes String.[] = []
codes (String.◌∷◌ c s) = code c ∷ codes s

-- Go's `<` on texts
unfoldable pub text_less : Text → Text → Bool
text_less [] [] = false
text_less [] (d ∷ b) = true
text_less (c ∷ a) [] = false
text_less (c ∷ a) (d ∷ b) = let rest = text_less a b in if c == d then rest else ltb c d

unfoldable pub text_eq : Text → Text → Bool
text_eq [] [] = true
text_eq [] (d ∷ b) = false
text_eq (c ∷ a) [] = false
text_eq (c ∷ a) (d ∷ b) = let rest = text_eq a b in c == d && rest

-- versionSep
abbrev pub version_sep : ℕ → Bool
version_sep c = c == b'.' || (c == b'-' || (c == b'+' || c == b'_'))

-- strings.FieldsFunc: the pieces between separators, without the empty ones
abbrev pub close_field : Text → List Text → List Text
close_field [] rest = rest
close_field (c ∷ cur) rest = (c ∷ cur) ∷ rest

unfoldable pub fields_from : Text → Text → List Text
fields_from cur [] = close_field cur []
fields_from cur (c ∷ cs) =
    let apart = fields_from [] cs in
    let on = fields_from (cur ++ c ∷ []) cs in if version_sep c then close_field cur apart else on

-- the loop of parseInt on an int64, whose bits are a number below 2 ^ 64
unfoldable pub parse_digits : ℕ → Text → Option ℕ
parse_digits n [] = some n
parse_digits n (c ∷ cs) =
    let rest = parse_digits ((n * 10 + (c - b'0')) % 2 ^ 64) cs in
    if ltb c b'0' || ltb b'9' c then none else rest

-- parseInt
unfoldable pub parse_int : Text → Option ℕ
unfolding parse_digits
parse_int [] = none
parse_int (c ∷ cs) = parse_digits 0 (c ∷ cs)

-- `<` on int64
abbrev pub signed_less : ℕ → ℕ → Bool
signed_less a b = ltb ((a + 2 ^ 63) % 2 ^ 64) ((b + 2 ^ 63) % 2 ^ 64)

-- versionPart: its number, where `isNum` holds
pub record VersionPart : Type 0 where
  pub text : Text
  pub num : Option ℕ

abbrev trim_v : Text → Text
trim_v [] = []
trim_v (c ∷ cs) = if c == b'v' then cs else c ∷ cs

-- splitVersion
unfoldable pub split_version : Text → List VersionPart
unfolding fields_from parse_int
split_version v = map (λ f. record { text = f; num = parse_int f }) (fields_from [] (trim_v v))

-- one round of the loop of versionLess: `none` goes on
unfoldable pub part_less : VersionPart → VersionPart → Option Bool
part_less a b = elim a.num [
  | some m ↦ elim b.num [
    | some n ↦ if m == n then none else some (signed_less m n)
    | none ↦ if text_eq a.text b.text then none else some (text_less a.text b.text)
  ]
  | none ↦ if text_eq a.text b.text then none else some (text_less a.text b.text)
]

unfoldable pub parts_less : List VersionPart → List VersionPart → Bool
parts_less [] [] = false
parts_less [] (b ∷ bs) = true
parts_less (a ∷ as') [] = false
parts_less (a ∷ as') (b ∷ bs) =
    let rest = parts_less as' bs in elim (part_less a b) [ none ↦ rest | some x ↦ x ]

-- versionLess
unfoldable pub version_less : Text → Text → Bool
version_less a b = if text_eq a b then false else parts_less (split_version a) (split_version b)

pub record Migration : Type 0 where
  pub id : String
  pub reversible : Bool
  pub expand_phase : Bool

pub record Manifest : Type 0 where
  pub version : String
  pub schema_version : ℕ
  pub rollback_floor : String
  pub migrations : List Migration

-- Manifest.Irreversible
unfoldable pub irreversible : List Migration → List Migration
irreversible [] = []
irreversible (x ∷ xs) = let rest = irreversible xs in if not x.reversible then x ∷ rest else rest

-- UnsafeRollbackError, by its reason
pub data Refusal : Type 0 where
  no_target no_manifest below_floor schema_moved : Refusal

-- a source of manifests, where one is configured; `none` is an error of the source
abbrev pub Manifests : Type 0
Manifests = String → String → Option Manifest

abbrev pub floor_broken : Deployment → Manifest → Bool
floor_broken target cur =
    not (cur.rollback_floor == "") && version_less (codes target.version) (codes cur.rollback_floor)

abbrev pub is_nil : List Migration → Bool
is_nil [] = true
is_nil (x ∷ xs) = false

abbrev pub schema_broken : Manifest → Option Manifest → Bool
schema_broken cur none = false
schema_broken cur (some t) =
    not (t.schema_version == cur.schema_version) && not (is_nil (irreversible cur.migrations))

-- Executor.checkMigrationFloor: `none` lets the rollback pass
unfoldable pub check_migration_floor : Option Manifests → Deployment → Deployment → Option Refusal
check_migration_floor none dep target = none
check_migration_floor (some source) dep target = elim (source dep.app dep.version) [
  | none ↦ some no_manifest
  | some cur ↦
      if floor_broken target cur
      then some below_floor
      else if schema_broken cur (source target.app target.version)
      then some schema_moved
      else none
]

-- engine.Plan: its configuration and its reason are left out
pub record Plan : Type 0 where
  pub version : String
  pub previous : String
  pub is_rollback : Bool
  pub rollback_of : String

abbrev pub plan_to : Deployment → Deployment → Plan
plan_to dep target = record {
  version = target.version;
  previous = dep.version;
  is_rollback = true;
  rollback_of = dep.id;
}

-- Executor.PlanRollback; `check` is Rollback.CheckMigrationFloor
unfoldable pub plan_rollback : Option Manifests → Bool → Deployment → Store → Plan ⊎ Refusal
plan_rollback source check dep s = elim (last_successful_before dep.app dep.environment dep.id s) [
  | err _ ↦ inr no_target
  | ok target ↦
      if check
      then elim (check_migration_floor source dep target) [
        | some r ↦ inr r
        | none ↦ inl (plan_to dep target)
      ]
      else inl (plan_to dep target)
]

-- Executor.CheckRollbackBudget: whether the version is blocked
unfoldable pub check_rollback_budget : Env → String → String → String → ℕ → Store → Result Bool
check_rollback_budget env app environment version max s =
    elim (count_rollbacks env app environment version (24 * 3600 * second) s) [
      | err e ↦ err e
      | ok n ↦ ok (leb max n)
    ]
