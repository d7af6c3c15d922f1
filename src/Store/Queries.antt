-- ===== src/Store/Queries.antt =====
-- internal/store/store.go: the queries on deployments. A row that is missing under an id of `order`
-- is Go's nil, and reading it panics.
use dev_ops_pipeline_orchest.Prelude.{
  Bool, List, Map, Option, String, [], drop, false, if◌then◌else◌, length, lookup, ltb, none, not,
  reverse, some, str_lt, suc, true, zero, ℕ, ◌&&◌, ◌-◌, ◌==◌, ◌||◌, ◌∷◌, string_eq, nat_eq,
}
use dev_ops_pipeline_orchest.Store.State.{
  State, active, rollback_failed, rolled_back, succeeded, state_eq,
}
use dev_ops_pipeline_orchest.Store.Rows.{
  Approval, AuditEntry, Deployment, Duration, HealthSample, Result, Step, err, not_found, ok,
  panicked,
}
use dev_ops_pipeline_orchest.Store.Index.{slice}
use dev_ops_pipeline_orchest.Store.Transactions.{Env, Store}

abbrev more : Deployment → Result (List Deployment) → Result (List Deployment)
more d (ok ds) = ok (d ∷ ds)
more d (err e) = err e

-- The rows that pass a test, in the order of the ids; `room` is what a limit leaves.
unfoldable pub collect :
    (Deployment → Bool) → Map Deployment → Option ℕ → List String → Result (List Deployment)
collect keep m (some zero) ids = ok []
collect keep m none [] = ok []
collect keep m (some (suc n)) [] = ok []
collect keep m none (id ∷ ids) =
    let rest = collect keep m none ids in
    elim (lookup id m) [ none ↦ err panicked | some d ↦ if keep d then more d rest else rest ]
collect keep m (some (suc n)) (id ∷ ids) =
    let skip = collect keep m (some (suc n)) ids in
    let take_it = collect keep m (some n) ids in
    elim (lookup id m) [ none ↦ err panicked | some d ↦ if keep d then more d take_it else skip ]

-- The first row that passes a test, among the ids that pass another.
unfoldable pub first :
    (String → Bool) → (Deployment → Bool) → Map Deployment → List String → Result Deployment
first usable keep m [] = err not_found
first usable keep m (id ∷ ids) =
    let rest = first usable keep m ids in
    if usable id
    then elim (lookup id m) [ none ↦ err panicked | some d ↦ if keep d then ok d else rest ]
    else rest

pub record ListFilter : Type 0 where
  pub app : String
  pub environment : String
  pub states : List State
  pub limit : ℕ

unfoldable pub has_state : State → List State → Bool
has_state s [] = false
has_state s (t ∷ ts) = if t == s then true else has_state s ts

unfoldable pub is_empty {ℓ} : {A : Type ℓ} → List A → Bool
is_empty [] = true
is_empty (x ∷ xs) = false

unfoldable pub matches : ListFilter → Deployment → Bool
unfolding has_state is_empty
matches f d =
    (f.app == "" || d.app == f.app)
    && ((f.environment == "" || d.environment == f.environment)
        && (is_empty f.states || has_state d.state f.states))

-- Store.ListDeployments: newest first
unfoldable pub list_deployments : ListFilter → Store → Result (List Deployment)
unfolding collect matches
list_deployments f s =
    collect (matches f) s.deployments (if f.limit == 0 then none else some f.limit)
      (reverse s.order)

abbrev at_target : String → String → Deployment → Bool
at_target app environment d = d.app == app && d.environment == environment

-- Store.ActiveDeployment
unfoldable pub active_deployment : String → String → Store → Result Deployment
unfolding first
active_deployment app environment s =
    first (λ id. true) (λ d. at_target app environment d && active d.state) s.deployments
      (reverse s.order)

-- Store.NonTerminalDeployments: oldest first
unfoldable pub non_terminal_deployments : Store → Result (List Deployment)
unfolding collect
non_terminal_deployments s = collect (λ d. active d.state) s.deployments none s.order

-- Store.LastSuccessfulBefore
unfoldable pub last_successful_before : String → String → String → Store → Result Deployment
unfolding first
last_successful_before app environment before s =
    first (λ id. str_lt id before) (λ d. at_target app environment d && d.state == succeeded)
      s.deployments (reverse s.order)

-- the test of CountRollbacks; subtraction that stops at the zero time changes no comparison
unfoldable pub counts_as_rollback : Env → String → String → String → Duration → Deployment → Bool
counts_as_rollback env app environment version within d =
    (at_target app environment d && d.version == version)
    && (not (ltb d.created_at (env.now - within))
        && (d.state == rolled_back || d.state == rollback_failed))

-- Store.CountRollbacks
unfoldable pub count_rollbacks : Env → String → String → String → Duration → Store → Result ℕ
unfolding collect counts_as_rollback
count_rollbacks env app environment version within s =
    elim (collect (counts_as_rollback env app environment version within) s.deployments none
      s.order) [ err e ↦ err e | ok ds ↦ ok (length ds) ]

-- sort.Slice of the steps by `Seq`
insert_step : Step → List Step → List Step
insert_step st [] = st ∷ []
insert_step st (x ∷ xs) =
    let rest = insert_step st xs in if ltb x.seq st.seq then x ∷ rest else st ∷ x ∷ xs

sort_steps : List Step → List Step
unfolding insert_step
sort_steps [] = []
sort_steps (x ∷ xs) = insert_step x (sort_steps xs)

-- Store.Steps
unfoldable pub steps_of : String → Store → List Step
unfolding sort_steps
steps_of id s = sort_steps (slice id s.steps)

-- Store.Samples, Store.Approvals
unfoldable pub samples_of : String → Store → List HealthSample
samples_of id s = slice id s.samples

unfoldable pub approvals_of : String → Store → List Approval
approvals_of id s = slice id s.approvals

-- Store.AuditEntries: the last `limit` entries, or all
unfoldable pub audit_entries : ℕ → Store → List AuditEntry
audit_entries limit s =
    let n = length s.audit in drop (if ltb 0 limit && ltb limit n then n - limit else 0) s.audit
