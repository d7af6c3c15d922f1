-- ===== src/Engine/Verify.antt =====
-- internal/engine/verify.go: the criteria and the decision loop over the samples.
-- The texts of the reasons are left out. A run of the loop is the list of what its rounds met; the
-- list ends where the clock has reached the end of the bake window.
pub mod Verdicts
pub mod Criteria
pub mod Tests
pub mod Live
pub mod Rounds
pub mod Bake
use dev_ops_pipeline_orchest.Prelude.{
  Bool, List, Option, String, [], false, if◌then◌else◌, leb, ltb, none, not, some, true, ℕ, ◌&&◌,
  ◌+◌, ◌∷◌, string_eq, nat_eq,
}
use dev_ops_pipeline_orchest.Store.Rows.{Deployment, Float64, HealthSample, Result, err, ok}
use dev_ops_pipeline_orchest.Store.Transactions.{Env, Platform, Store}
use dev_ops_pipeline_orchest.Store.Tables.{record_sample}

-- Go's float64 arithmetic, on bit patterns
pub record Floats : Type 0 where
  pub zero_float : Float64
  pub less : Float64 → Float64 → Bool
  pub at_most : Float64 → Float64 → Bool
  pub divide : Float64 → Float64 → Float64

-- config.Direction; `no_direction` is any other text
pub data Direction : Type 0 where
  lower_is_better higher_is_better no_direction : Direction

-- config.Criterion, without the settings of its verifier
pub record Criterion : Type 0 where
  pub name : String
  pub verifier : String
  pub direction : Direction
  pub max : Option Float64
  pub max_ratio : Option Float64
  pub floor_value : Float64

-- verifier.Sample
pub record Sample : Type 0 where
  pub value : Float64
  pub baseline : Float64

-- config.VerifyPolicy: the counts, and the criteria
pub record VerifyPolicy : Type 0 where
  pub min_samples : ℕ
  pub failure_threshold : ℕ
  pub success_threshold : ℕ
  pub max_inconclusive : ℕ
  pub criteria : List Criterion

pub data Verdict : Type 0 where
  healthy unhealthy inconclusive aborted : Verdict

pub record VerifyResult : Type 0 where
  pub verdict : Verdict
  pub samples : ℕ
  pub inconclusive_count : ℕ
  pub consecutive_fail : ℕ

module _ (f : Floats) where
  -- Sample.HasBaseline
  unfoldable pub has_baseline : Sample → Bool
  has_baseline s = f.less f.zero_float s.baseline

  -- the two early returns on the floor
  unfoldable pub within_floor : Criterion → Sample → Bool
  within_floor c s = elim c.direction [
    | lower_is_better ↦ f.at_most s.value c.floor_value
    | higher_is_better ↦ f.less f.zero_float c.floor_value && f.at_most c.floor_value s.value
    | no_direction ↦ false
  ]

  unfoldable pub beyond_max : Criterion → Sample → Bool
  beyond_max c s = elim c.max [
    | none ↦ false
    | some m ↦ elim c.direction [
      | lower_is_better ↦ f.less m s.value
      | higher_is_better ↦ f.less s.value m
      | no_direction ↦ false
    ]
  ]

  unfoldable pub ratio_of : Criterion → Sample → Float64
  ratio_of c s = elim c.direction [
    | higher_is_better ↦ f.divide s.baseline s.value
    | _ ↦ f.divide s.value s.baseline
  ]

  unfoldable pub within_ratio : Criterion → Sample → Bool
  unfolding has_baseline ratio_of
  within_ratio c s = elim c.max_ratio [
    | none ↦ true
    | some m ↦ if not (has_baseline s) then true else not (f.less m (ratio_of c s))
  ]

  -- EvaluateCriterion
  unfoldable pub evaluate_criterion : Criterion → Sample → Bool
  evaluate_criterion c s =
      if within_floor c s then true else if beyond_max c s then false else within_ratio c s

-- What asking a verifier for a sample comes to.
pub data Probe : Type 0 where
  no_sample : Probe
  sampled : Sample → Probe

-- One round of the loop: the context was cancelled, `sampleAll` returned an error, or it returned
-- whether all criteria passed.
pub data Round : Type 0 where
  cancelled_round errored : Round
  judged : Bool → Round

-- Behind one criterion: an error of the store ends the round, and so does a later error.
abbrev pub go_on : Bool → Result (Unit {0}) × Store → Round × Store → Round × Store
go_on passed (err e, s) rest = (errored, s)
go_on passed (ok _, s) (judged b, s') = (judged (passed && b), s')
go_on passed (ok _, s) (r, s') = (r, s')

module _ (p : Platform) (f : Floats) where
  abbrev pub health_of : Env → Deployment → Criterion → Sample → HealthSample
  health_of env d c s = record {
    deployment_id = d.id;
    verifier = c.verifier;
    criterion = c.name;
    at = env.now;
    value = s.value;
    baseline = s.baseline;
    healthy = evaluate_criterion f c s;
    note = "";
  }

  -- Executor.sampleAll: every criterion is asked and recorded, also behind one that failed; an error
  -- ends the round
  unfoldable pub sample_all :
      Env → Deployment → (Criterion → Probe) → List Criterion → Store → Round × Store
  sample_all env d probe [] s = (judged true, s)
  sample_all env d probe (c ∷ cs) s = elim (probe c) [
    | no_sample ↦ (errored, s)
    | sampled x ↦
        let r = record_sample p env (health_of env d c x) s in
        go_on (evaluate_criterion f c x) r (sample_all env d probe cs r.1)
  ]

-- The variables of the loop of Verify.
pub record Tally : Type 0 where
  pub fails : ℕ
  pub passes : ℕ
  pub errors : ℕ
  pub total : ℕ

abbrev pub result_of : Verdict → Tally → VerifyResult
result_of v t = record {
  verdict = v;
  samples = t.total;
  inconclusive_count = t.errors;
  consecutive_fail = 0;
}

-- what one round does to the variables
unfoldable pub tick : Round → Tally → Tally
tick cancelled_round t = t
tick errored t = record t { errors = t.errors + 1 }
tick (judged true) t = record t { total = t.total + 1; passes = t.passes + 1; fails = 0 }
tick (judged false) t = record t { total = t.total + 1; fails = t.fails + 1; passes = 0 }

-- the return behind the loop
unfoldable pub bake_over : VerifyPolicy → Tally → VerifyResult
bake_over p t = if ltb t.total p.min_samples then result_of inconclusive t else result_of healthy t

unfoldable pub verify_loop : VerifyPolicy → Tally → List Round → VerifyResult
unfolding tick bake_over
verify_loop p t [] = bake_over p t
verify_loop p t (cancelled_round ∷ rs) = record (result_of aborted t) { inconclusive_count = 0 }
verify_loop p t (errored ∷ rs) =
    let t' = tick errored t in
    let rest = verify_loop p t' rs in
    if ltb p.max_inconclusive t'.errors then result_of inconclusive t' else rest
verify_loop p t (judged true ∷ rs) =
    let t' = tick (judged true) t in
    let rest = verify_loop p t' rs in
    if leb p.success_threshold t'.passes && leb p.min_samples t'.total
    then result_of healthy t'
    else rest
verify_loop p t (judged false ∷ rs) =
    let t' = tick (judged false) t in
    let rest = verify_loop p t' rs in
    if leb p.failure_threshold t'.fails
    then record (result_of unhealthy t') { consecutive_fail = t'.fails }
    else rest

-- Executor.Verify
unfoldable pub verify : VerifyPolicy → List Round → VerifyResult
verify p rs = elim p.criteria [
  | [] ↦ record { verdict = healthy; samples = 0; inconclusive_count = 0; consecutive_fail = 0 }
  | _ ∷ _ ↦ verify_loop p (record { fails = 0; passes = 0; errors = 0; total = 0 }) rs
]
