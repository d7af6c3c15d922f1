-- ===== src/Engine/Verify/Tests.antt =====
-- Tests and examples for the verification.
use dev_ops_pipeline_orchest.Prelude.{
  Bool, List, [], arith, false, if◌then◌else◌, leb, ltb, refl, some, true, ◌++◌, ◌/◌, ◌==◌, ◌||◌,
  ◌∷◌, ◌≡◌, string_eq, nat_eq,
}
use dev_ops_pipeline_orchest.Store.Rows.{Float64}
use dev_ops_pipeline_orchest.Store.Transactions.{commit_tx, committed}
use dev_ops_pipeline_orchest.Store.Index.{slice}
use dev_ops_pipeline_orchest.Store.Operations.{empty_store}
use dev_ops_pipeline_orchest.Store.Fixtures.{at_time, lax_platform, new_row}
use dev_ops_pipeline_orchest.Engine.Verify.{
  Criterion, Floats, Probe, Round, VerifyPolicy, beyond_max, errored, evaluate_criterion,
  has_baseline, judged, lower_is_better, ratio_of, sample_all, sampled, tick, unhealthy, verify,
  verify_loop, within_floor, within_ratio,
}
use dev_ops_pipeline_orchest.Engine.Verify.Verdicts.{Accounts, no_tally, verify-Accounts}
use dev_ops_pipeline_orchest.Engine.Verify.Criteria.{
  IsNan, all_pass, healths, nan_passes, sample_all-judged,
}
use dev_ops_pipeline_orchest.Store.Journal.{append_group, encode_group, encode_record, land}
use dev_ops_pipeline_orchest.Store.Tables.{record_sample}

-- Numbers that stand for themselves, with 1000 as the one value that is not a number.
abbrev is_nan : Float64 → Bool
is_nan x = x == 1000

abbrev small_floats : Floats
small_floats = record {
  zero_float = 0;
  less = λ x y. if is_nan x || is_nan y then false else ltb x y;
  at_most = λ x y. if is_nan x || is_nan y then false else leb x y;
  divide = λ x y. if is_nan x || is_nan y then 1000 else x / y;
}

abbrev error_rate : Criterion
error_rate = record {
  name = "errors";
  verifier = "prom";
  direction = lower_is_better;
  max = some 5;
  max_ratio = some 2;
  floor_value = 1;
}

not_number-IsNan : IsNan small_floats 1000
not_number-IsNan = record {
  not_less = λ x. (refl, ground arith);
  not_at_most = λ x. (refl, ground arith);
  quotients = λ x y. (ground arith, ground arith);
}

nan_passes_example :
    evaluate_criterion small_floats error_rate (record { value = 1000; baseline = 3 }) ≡ true
nan_passes_example =
    nan_passes small_floats error_rate (record { value = 1000; baseline = 3 }) not_number-IsNan

abbrev steady : VerifyPolicy
steady = record {
  min_samples = 2;
  failure_threshold = 2;
  success_threshold = 3;
  max_inconclusive = 1;
  criteria = error_rate ∷ [];
}

-- One failure, an error, a success, and two failures in a row.
abbrev bad_rounds : List Round
bad_rounds = judged false ∷ errored ∷ judged true ∷ judged false ∷ judged false ∷ judged true ∷ []

bad_verdict :
    verify steady bad_rounds
    ≡ record { verdict = unhealthy; samples = 4; inconclusive_count = 1; consecutive_fail = 2 }
unfolding verify verify_loop tick
bad_verdict = refl

verify-Accounts_example : Accounts steady no_tally bad_rounds (verify steady bad_rounds)
verify-Accounts_example = verify-Accounts steady error_rate [] bad_rounds refl

abbrev probe_three : Criterion → Probe
probe_three c = sampled (record { value = 3; baseline = 2 })

sample_all-judged_example :
    let r =
      sample_all lax_platform small_floats
        (at_time 5)
        new_row
        probe_three
        (error_rate ∷ [])
        (empty_store 30) in
    (true ≡ all_pass small_floats probe_three (error_rate ∷ []))
    × (slice "d1" r.1.samples
        ≡ slice "d1" (empty_store 30).samples
          ++ healths lax_platform small_floats (at_time 5) new_row probe_three (error_rate ∷ []))
unfolding sample_all record_sample commit_tx committed append_group encode_group encode_record land
    evaluate_criterion within_floor beyond_max within_ratio has_baseline ratio_of
sample_all-judged_example =
    sample_all-judged lax_platform small_floats (at_time 5) new_row probe_three (error_rate ∷ [])
      (empty_store 30) true refl
