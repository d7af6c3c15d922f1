-- ===== src/Engine/Verify/Live.antt =====
-- internal/engine/verify.go: sampleAll and Verify against the store, as the executor calls them.
use dev_ops_pipeline_orchest.Prelude.{
  Bool, List, Option, [], false, if◌then◌else◌, leb, ltb, none, some, true, ◌&&◌, ◌∷◌, string_eq,
  nat_eq,
}
use dev_ops_pipeline_orchest.Engine.Verify.{
  Criterion, Probe, Round, Sample, Tally, VerifyPolicy, VerifyResult, aborted, bake_over,
  cancelled_round, errored, evaluate_criterion, health_of, healthy, inconclusive, judged, no_sample,
  result_of, sampled, tick, unhealthy,
}
use dev_ops_pipeline_orchest.Store.Rows.{Deployment, Duration}
use dev_ops_pipeline_orchest.Engine.World.{
  M, World, ask, call, if_some, on_error, pure, the_dep, ◌>>=◌,
}
use dev_ops_pipeline_orchest.Store.Queries.{is_empty}
use dev_ops_pipeline_orchest.Store.Tables.{record_sample}

abbrev pub sample_of : Probe → Option Sample
sample_of no_sample = none
sample_of (sampled x) = some x

abbrev pub both : Bool → Round → Round
both passed (judged b) = judged (passed && b)
both passed r = r

abbrev pub start_tally : Tally
start_tally = record { fails = 0; passes = 0; errors = 0; total = 0 }

-- the returns of one round of the loop of Verify
unfoldable pub decide : VerifyPolicy → Tally → Round → Option VerifyResult
unfolding tick
decide p t cancelled_round = some (record (result_of aborted t) { inconclusive_count = 0 })
decide p t errored =
    let t' = tick errored t in
    if ltb p.max_inconclusive t'.errors then some (result_of inconclusive t') else none
decide p t (judged true) =
    let t' = tick (judged true) t in
    if leb p.success_threshold t'.passes && leb p.min_samples t'.total
    then some (result_of healthy t')
    else none
decide p t (judged false) =
    let t' = tick (judged false) t in
    if leb p.failure_threshold t'.fails
    then some (record (result_of unhealthy t') { consecutive_fail = t'.fails })
    else none

module _ (w : World) where
  -- one criterion, before the next ones
  unfoldable pub sample_next : Deployment → Criterion → Option Sample → M Round → M Round
  sample_next d c none next = pure errored
  sample_next d c (some x) next =
      on_error
        (call w (λ env. record_sample w.platform env (health_of w.platform w.floats env d c x)))
        (λ _. pure errored) (λ _. do b ← next; pure (both (evaluate_criterion w.floats c x) b))

  -- Executor.sampleAll, with each sample recorded by a call of the store
  unfoldable pub sample_round : Deployment → (Criterion → Probe) → List Criterion → M Round
  sample_round d probe [] = pure (judged true)
  sample_round d probe (c ∷ cs) = sample_next d c (sample_of (probe c)) (sample_round d probe cs)

  unfoldable pub bake_round : VerifyPolicy → Deployment → Option (Criterion → Probe) → M Round
  bake_round policy d none = pure cancelled_round
  bake_round policy d (some probe) = sample_round d probe policy.criteria

  -- the loop of Executor.Verify, on the rounds that the bake has time for
  unfoldable pub bake :
      VerifyPolicy → Deployment → Tally → List (Option (Criterion → Probe)) → M VerifyResult
  unfolding tick
  bake policy d t [] = pure (bake_over policy t)
  bake policy d t (probe ∷ probes) = do
    r ← bake_round policy d probe
    if_some (decide policy t r) pure (bake policy d (tick r t) probes)

  -- Executor.Verify
  unfoldable pub verify_now : VerifyPolicy → Duration → M VerifyResult
  verify_now policy window =
      if is_empty policy.criteria then pure (result_of healthy start_tally) else do
        d ← the_dep
        probes ← ask (λ n. w.bake_rounds n window)
        bake policy d start_tally probes
