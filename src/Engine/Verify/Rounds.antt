-- ===== src/Engine/Verify/Rounds.antt =====
-- What a round of samples against the store says of the probes that it met.
use mathlib.Core.List.{Memᴰ}
use mathlib.Core.List.Memᴰ.{head, tail}
use dev_ops_pipeline_orchest.Prelude.{
  All, List, Option, [], ap, inl, inr, none, refl, some, true, ◌&&◌, ◌∷◌, ◌≡◌, ◌⊎◌,
}
use dev_ops_pipeline_orchest.Store.Rows.{Deployment}
use dev_ops_pipeline_orchest.Store.Tables.{record_sample}
use dev_ops_pipeline_orchest.Engine.Verify.{
  Criterion, Probe, Round, Sample, VerifyPolicy, cancelled_round, errored, evaluate_criterion,
  health_of, judged, no_sample, sampled,
}
use dev_ops_pipeline_orchest.Engine.Verify.Criteria.{all_pass}
use dev_ops_pipeline_orchest.Engine.Verify.Live.{
  bake_round, both, sample_next, sample_of, sample_round,
}
use dev_ops_pipeline_orchest.Engine.World.{
  Cause, M, Machine, Outcome, World, call, caught, done, failure, on_error, pure, ◌>>=◌,
}

module _ (w : World) where
  -- the call that records the sample of a criterion
  abbrev pub record_it : Deployment → Criterion → Sample → M (Unit {0})
  record_it d c x =
      call w (λ env. record_sample w.platform env (health_of w.platform w.floats env d c x))

  -- Why a criterion has no recorded sample: there is none, or the store refused it at some moment.
  abbrev pub Unsampled : Deployment → (Criterion → Probe) → Criterion → Type 0
  Unsampled d probe c =
      (probe c ≡ no_sample)
      ⊎ ((x : Sample) × (probe c ≡ sampled x)
          × (m : Machine) × (e : Cause) × ((record_it d c x m).0 ≡ failure e))

  -- A round was judged on a sample of every criterion, and passed if all of them did; or some
  -- criterion has no recorded sample; or it was cancelled.
  unfoldable pub Meets : Deployment → List Criterion → Option (Criterion → Probe) → Round → Type 0
  Meets d cs none r = r ≡ cancelled_round
  Meets d cs (some probe) cancelled_round = ⊥
  Meets d cs (some probe) (judged b) =
      All (λ c. (x : Sample) × (probe c ≡ sampled x)) cs × (b ≡ all_pass w.floats probe cs)
  Meets d cs (some probe) errored = (c : Criterion) × Memᴰ c cs × Unsampled d probe c

  -- `x` never fails, and returns what `Q` holds of
  abbrev pub Returns : {A : Type 0} → (A → Type 0) → M A → Type 0
  Returns {A} Q x = (m : Machine) → (a : A) × (n : Machine) × (x m ≡ (done a, n)) × Q a

  both-Meets :
      (d : Deployment) (probe : Criterion → Probe) (c : Criterion) (cs : List Criterion)
      (x : Sample) (r : Round)
      → probe c ≡ sampled x
      → Meets d cs (some probe) r
      → Meets d (c ∷ cs) (some probe) (both (evaluate_criterion w.floats c x) r)
  unfolding Meets
  both-Meets d probe c cs x cancelled_round q h = h
  both-Meets d probe c cs x (judged b) q h =
      (((x, q), h.0), rw (q, all_pass) (ap (λ t. evaluate_criterion w.floats c x && t) h.1))
  both-Meets d probe c cs x errored q (c', k, why) = (c', tail k, why)

  sample_next-Returns :
      (d : Deployment) (probe : Criterion → Probe) (c : Criterion) (cs : List Criterion)
      (x : M Round)
      → Returns (Meets d cs (some probe)) x
      → Returns (Meets d (c ∷ cs) (some probe)) (sample_next w d c (sample_of (probe c)) x)
  unfolding Meets sample_next on_error pure ◌>>=◌
  sample_next-Returns d probe c cs x h m = by_probe (probe c) refl
    where
      by_call :
          (y : Sample)
          → probe c ≡ sampled y
          → (q : Outcome (Unit {0}) × Machine) → record_it d c y m ≡ q
          → (a : Round) × (n : Machine) × (caught
                (λ _. pure errored)
                (λ _. x >>= λ b. pure (both (evaluate_criterion w.floats c y) b))
                q
              ≡ (done a, n))
            × Meets d (c ∷ cs) (some probe) a
      by_call y s (failure e, n) k = (
        errored,
        n,
        refl,
        (c, head refl, inr (y, s, m, e, ap (λ (t : Outcome (Unit {0}) × Machine). t.0) k)),
      )
      by_call y s (done u, n) k =
          let (b, n', e, g) = h n in
          (both (evaluate_criterion w.floats c y) b, n', rw e refl, both-Meets d probe c cs y b s g)

      by_probe :
          (o : Probe)
          → probe c ≡ o
          → (a : Round) × (n : Machine) × (sample_next w d c (sample_of o) x m ≡ (done a, n))
            × Meets d (c ∷ cs) (some probe) a
      by_probe no_sample q = (errored, m, refl, (c, head refl, inl q))
      by_probe (sampled y) q = by_call y q (record_it d c y m) refl

  sample_round-Returns :
      (d : Deployment) (probe : Criterion → Probe) (cs : List Criterion)
      → Returns (Meets d cs (some probe)) (sample_round w d probe cs)
  unfolding sample_round pure Meets
  sample_round-Returns d probe [] m = (judged true, m, refl, (tt, refl))
  sample_round-Returns d probe (c ∷ cs) m =
      sample_next-Returns d probe c cs _ (sample_round-Returns d probe cs) m

  pub bake_round-Returns :
      (p : VerifyPolicy) (d : Deployment) (o : Option (Criterion → Probe))
      → Returns (Meets d p.criteria o) (bake_round w p d o)
  unfolding bake_round pure Meets
  bake_round-Returns p d none m = (cancelled_round, m, refl, refl)
  bake_round-Returns p d (some probe) m = sample_round-Returns d probe p.criteria m
