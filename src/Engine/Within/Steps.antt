-- ===== src/Engine/Within/Steps.antt =====
-- The steps of a run act through the store's methods, and move traffic or deploy.
use dev_ops_pipeline_orchest.Prelude.{List, Option, String, [], none, refl, some, ℕ, ◌∷◌}
use dev_ops_pipeline_orchest.Store.Rows.{Deployment, Duration, HealthSample}
use dev_ops_pipeline_orchest.Engine.Verify.Live.{
  bake, bake_round, sample_next, sample_of, sample_round, verify_now,
}
use dev_ops_pipeline_orchest.Engine.Steps.{
  act_on_verdict, after_deploy, canary_next, canary_step, canary_steps, check_budget, check_history,
  check_promotion, check_target, deploy_step, find_provider, note_deploy, note_preflight,
  preflight_step, promote_step, read_current, run_canary, shift_if_able, shift_to, verify_and_act,
  verify_step, version_of,
}
use dev_ops_pipeline_orchest.Engine.World.{
  Current, DeployReply, DeployRequest, M, World, call, deploy_call, deploy_refused, deployed_as,
  live_version, shift_call, unknown_live, unreadable,
}
use dev_ops_pipeline_orchest.Engine.World.Frames.{
  EffectFrame, Steady, Within, Within-bind, Within-call, Within-emit, Within-fail, Within-pure,
  frame_rules,
}
use dev_ops_pipeline_orchest.Engine.Within.Basics.{
  Within-check_freeze, Within-record_step, Within-save,
}
use dev_ops_pipeline_orchest.Config.Schema.{AppEnv, CanaryStep}
use dev_ops_pipeline_orchest.Store.Tables.{record_sample}
use dev_ops_pipeline_orchest.Store.Transactions.{Env}
use dev_ops_pipeline_orchest.Engine.Verify.{
  Criterion, Probe, Round, Sample, Tally, Verdict, VerifyPolicy, aborted, healthy, inconclusive,
  tick, unhealthy,
}
use dev_ops_pipeline_orchest.Store.Operations.{note_sample, run_op}

module _ (w : World) (f : EffectFrame w)
    (same : (g : Deployment → Deployment) → Steady g → f.Turns g) where
  Within-note_preflight : Within w f (note_preflight w)
  unfolding note_preflight
  Within-note_preflight = search (frame_rules, same, Within-record_step) depth 9

  pub Within-find_provider : (cfg : AppEnv) → Within w f (find_provider w cfg)
  unfolding find_provider
  Within-find_provider cfg = search frame_rules

  Within-check_target : (cfg : AppEnv) → Within w f (check_target w cfg)
  unfolding check_target
  Within-check_target cfg = search (frame_rules, Within-find_provider)

  Within-version_of : (c : Current) → Within w f (version_of w c)
  unfolding version_of
  Within-version_of unreadable = Within-fail w _
  Within-version_of unknown_live = Within-fail w _
  Within-version_of (live_version v) = Within-pure w v

  Within-read_current : Within w f (read_current w)
  unfolding read_current
  Within-read_current = search (frame_rules, Within-version_of)

  pub Within-check_history : (cfg : AppEnv) (d : Deployment) → Within w f (check_history w cfg d)
  unfolding check_history check_budget check_promotion
  Within-check_history cfg d = search frame_rules depth 9

  pub Within-preflight_step : (cfg : AppEnv) → Within w f (preflight_step w cfg)
  unfolding preflight_step
  Within-preflight_step cfg =
      search
        (
          frame_rules, same, Within-note_preflight, Within-check_freeze, Within-check_target,
          Within-read_current, Within-check_history, Within-save,
        )
        depth 20

  Within-note_deploy : (state output error : String) → Within w f (note_deploy w state output error)
  unfolding note_deploy
  Within-note_deploy state output error = search (frame_rules, same, Within-record_step) depth 9

  pub Within-shift_to : (n : ℕ) → f.Admits (shift_call n) → Within w f (shift_to w n)
  unfolding shift_to
  Within-shift_to n h = search (frame_rules, Within-emit)

  Within-after_deploy :
      (cfg : AppEnv) (r : DeployReply)
      → ((n : ℕ) → f.Admits (shift_call n))
      → Within w f (after_deploy w cfg r)
  unfolding after_deploy shift_if_able
  Within-after_deploy cfg (deploy_refused output) h =
      search (frame_rules, Within-note_deploy) depth 9
  Within-after_deploy cfg (deployed_as handle output) h =
      search (frame_rules, same, Within-note_deploy, Within-save, Within-shift_to, h) depth 12

  pub Within-deploy_step :
      (cfg : AppEnv)
      → ((r : DeployRequest) → f.Admits (deploy_call r))
      → ((n : ℕ) → f.Admits (shift_call n))
      → Within w f (deploy_step w cfg)
  unfolding deploy_step
  Within-deploy_step cfg hd hs =
      search (frame_rules, Within-find_provider, Within-after_deploy, Within-emit, hd, hs) depth 12

  Within-record_sample :
      (x : Env → HealthSample) → Within w f (call w (λ env. record_sample w.platform env (x env)))
  unfolding run_op
  Within-record_sample x = Within-call w (λ env. note_sample (x env)) _ (λ env s. refl)

  Within-sample_next :
      (d : Deployment) (c : Criterion) (o : Option Sample) (x : M Round)
      → Within w f x
      → Within w f (sample_next w d c o x)
  unfolding sample_next
  Within-sample_next d c none x h = Within-pure w _
  Within-sample_next d c (some y) x h = search (frame_rules, Within-record_sample) depth 9

  Within-sample_round :
      (d : Deployment) (probe : Criterion → Probe) (cs : List Criterion)
      → Within w f (sample_round w d probe cs)
  unfolding sample_round
  Within-sample_round d probe [] = Within-pure w _
  Within-sample_round d probe (c ∷ cs) =
      Within-sample_next d c (sample_of (probe c)) _ (Within-sample_round d probe cs)

  Within-bake_round :
      (p : VerifyPolicy) (d : Deployment) (o : Option (Criterion → Probe))
      → Within w f (bake_round w p d o)
  unfolding bake_round
  Within-bake_round p d none = Within-pure w _
  Within-bake_round p d (some probe) = Within-sample_round d probe p.criteria

  Within-bake :
      (p : VerifyPolicy) (d : Deployment) (t : Tally) (os : List (Option (Criterion → Probe)))
      → Within w f (bake w p d t os)
  unfolding bake
  Within-bake p d t [] = Within-pure w _
  Within-bake p d t (o ∷ os) =
      Within-bind w _ _ (Within-bake_round p d o)
        (λ r. search (frame_rules, Within-bake p d (tick r t) os))

  Within-verify_now : (p : VerifyPolicy) (window : Duration) → Within w f (verify_now w p window)
  unfolding verify_now
  Within-verify_now p window = search (frame_rules, Within-bake) depth 9

  Within-act_on_verdict : (v : Verdict) → Within w f (act_on_verdict w v)
  unfolding act_on_verdict
  Within-act_on_verdict healthy = Within-pure w tt
  Within-act_on_verdict unhealthy = Within-fail w _
  Within-act_on_verdict inconclusive = Within-fail w _
  Within-act_on_verdict aborted = Within-fail w _

  Within-verify_and_act :
      (cfg : AppEnv) (window : Duration) → Within w f (verify_and_act w cfg window)
  unfolding verify_and_act
  Within-verify_and_act cfg window = search (frame_rules, Within-verify_now, Within-act_on_verdict)

  module _ (shifts : (n : ℕ) → f.Admits (shift_call n)) where
    Within-canary_step : (cfg : AppEnv) (s : CanaryStep) → Within w f (canary_step w cfg s)
    unfolding canary_step
    Within-canary_step cfg s =
        search (frame_rules, Within-shift_to, Within-verify_and_act, shifts) depth 9

    Within-canary_next :
        (cfg : AppEnv) (s : CanaryStep) (x : M (Unit {0}))
        → Within w f x
        → Within w f (canary_next w cfg s x)
    unfolding canary_next
    Within-canary_next cfg s x h = search (frame_rules, Within-canary_step) depth 9

    Within-canary_steps : (cfg : AppEnv) (ss : List CanaryStep) → Within w f (canary_steps w cfg ss)
    unfolding canary_steps
    Within-canary_steps cfg [] = Within-pure w tt
    Within-canary_steps cfg (s ∷ ss) = Within-canary_next cfg s _ (Within-canary_steps cfg ss)

    pub Within-verify_step : (cfg : AppEnv) → Within w f (verify_step w cfg)
    unfolding verify_step run_canary
    Within-verify_step cfg =
        search (frame_rules, Within-find_provider, Within-canary_steps, Within-verify_and_act) depth
          9

  pub Within-promote_step : (cfg : AppEnv) → Within w f (promote_step w cfg)
  unfolding promote_step
  Within-promote_step cfg = Within-pure w tt
