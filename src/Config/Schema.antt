-- ===== src/Config/Schema.antt =====
-- internal/config/schema.go: the configuration as the server reads it. The artifact, the
-- notifiers and the texts of the errors are left out.
use dev_ops_pipeline_orchest.Prelude.{
  Bool, List, Map, Option, String, [], false, if◌then◌else◌, leb, lookup, none, not, some, true, ℕ,
  ◌&&◌, ◌*◌, ◌+◌, ◌==◌, ◌||◌, ◌∷◌, string_eq, nat_eq,
}
use dev_ops_pipeline_orchest.Store.Rows.{Duration}
use dev_ops_pipeline_orchest.Engine.Verify.{VerifyPolicy}

-- StrategyType, a string type: `other_strategy` is any other text
pub data StrategyType : Type 0 where
  recreate rolling blue_green canary other_strategy : StrategyType

-- a weight, or the bake of a pause
pub record CanaryStep : Type 0 where
  pub set_weight : Option ℕ
  pub verify_bake : Option Duration

pub record Strategy : Type 0 where
  pub kind : StrategyType
  pub batch_size : String
  pub steps : List CanaryStep

pub data GateType : Type 0 where
  approval_gate schedule_gate freeze_gate other_gate : GateType

-- the day counts from Sunday, the times are minutes from midnight
pub record DenyWindow : Type 0 where
  pub day : ℕ
  pub start : ℕ
  pub finish : ℕ

-- What `time.Time` says of a moment in a time zone.
pub record Moment : Type 0 where
  pub weekday : ℕ
  pub hour : ℕ
  pub minute : ℕ

-- DenyWindow.Contains
unfoldable pub window_contains : DenyWindow → Moment → Bool
window_contains w t =
    if not (t.weekday == w.day)
    then false
    else leb w.start (t.hour * 60 + t.minute) && leb (t.hour * 60 + t.minute) w.finish

pub record Gate : Type 0 where
  pub kind : GateType
  pub require_peer : Bool
  pub roles : List String
  pub ttl : Duration
  pub deny : List DenyWindow
  pub timezone : String

pub record RollbackPolicy : Type 0 where
  pub automatic : Bool
  pub check_migration_floor : Bool
  pub max_attempts : ℕ

-- AppEnv; `bake` is the policy's
pub record AppEnv : Type 0 where
  pub app : String
  pub name : String
  pub provider : String
  pub provider_cfg : Map String
  pub strategy : Strategy
  pub promote_from : String
  pub verify : VerifyPolicy
  pub bake : Duration
  pub gates : List Gate
  pub rollback : RollbackPolicy

pub record App : Type 0 where
  pub name : String
  pub environments : Map AppEnv

pub record EnvPolicy : Type 0 where
  pub name : String
  pub require_peer_approval : Bool
  pub protected_env : Bool

pub record Grant : Type 0 where
  pub permission : String
  pub on : List String

-- Grant.Covers, and the same loop over the roles of a gate
unfoldable pub names_any : List String → String → Bool
names_any [] want = false
names_any (x ∷ xs) want = if x == "*" || x == want then true else names_any xs want

abbrev pub covers_env : Grant → String → Bool
covers_env g env = names_any g.on env

pub record Identity : Type 0 where
  pub user : String
  pub slack_id : String
  pub email : String
  pub roles : List String
  pub disabled : Bool

pub record Config : Type 0 where
  pub apps : Map App
  pub environments : Map EnvPolicy
  pub roles : Map (List Grant)
  pub identities : Map Identity

-- Config.AppEnv
unfoldable pub app_env : Config → String → String → Option AppEnv
app_env c app env = elim (lookup app c.apps) [ none ↦ none | some a ↦ lookup env a.environments ]

-- Config.EnvPolicyFor
unfoldable pub env_policy_for : Config → String → EnvPolicy
env_policy_for c name = elim (lookup name c.environments) [
  | some e ↦ e
  | none ↦ record { name = name; require_peer_approval = false; protected_env = false }
]

-- `c.Roles[role]`: a missing role has the nil slice
abbrev pub grants_of : Config → String → List Grant
grants_of c role = elim (lookup role c.roles) [ none ↦ [] | some gs ↦ gs ]

unfoldable pub any_grant : String → String → List Grant → Bool
any_grant permission env [] = false
any_grant permission env (g ∷ gs) =
    if g.permission == permission && covers_env g env then true else any_grant permission env gs

unfoldable pub any_role : Config → String → String → List String → Bool
any_role c permission env [] = false
any_role c permission env (r ∷ rs) =
    if any_grant permission env (grants_of c r) then true else any_role c permission env rs

-- Config.Can
unfoldable pub can : Config → Option Identity → String → String → Bool
can c none permission env = false
can c (some u) permission env = if u.disabled then false else any_role c permission env u.roles

-- Config.IdentityBySlackID
unfoldable pub identity_by_slack_id : Map Identity → String → Option Identity
identity_by_slack_id [] slack = none
identity_by_slack_id ((k, u) ∷ m) slack =
    if u.slack_id == slack && not u.disabled then some u else identity_by_slack_id m slack
