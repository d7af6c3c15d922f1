-- ===== src/Engine/Verify/Criteria.antt =====
-- What the criteria let pass, and what a round of samples leaves behind.
use dev_ops_pipeline_orchest.Prelude.{
  Bool, List, Option-cases, [], ap, append-nil, append_assoc, arith, false, inl, inr,
  lookup-insert_self, refl, sym, true, ◌&&◌, ◌++◌, ◌∙◌, ◌∷◌, ◌≡◌, string_eq, nat_eq,
}
use dev_ops_pipeline_orchest.Store.Rows.{Deployment, Float64, HealthSample, Result, err, health, ok}
use dev_ops_pipeline_orchest.Engine.Verify.{
  Criterion, Floats, Probe, Round, Sample, beyond_max, cancelled_round, errored, evaluate_criterion,
  go_on, health_of, judged, no_sample, ratio_of, sample_all, sampled, within_ratio,
}
use dev_ops_pipeline_orchest.Store.Tables.{add_sample, record_sample}
use dev_ops_pipeline_orchest.Store.Transactions.{Env, Platform, Store, run_after}
use dev_ops_pipeline_orchest.Store.Index.{slice}
use dev_ops_pipeline_orchest.Store.Transactions.Outcomes.{
  Ended, commit_tx-Ended, landed, not_written,
}

-- How IEEE 754 treats a value that is not a number: no comparison with it holds, and dividing by it or
-- dividing it gives such a value again.
pub record IsNan (f : Floats) (v : Float64) : Type 0 where
  pub not_less : (x : Float64) → (f.less v x ≡ false) × (f.less x v ≡ false)
  pub not_at_most : (x : Float64) → (f.at_most v x ≡ false) × (f.at_most x v ≡ false)
  pub quotients :
      (x y : Float64) → (f.less y (f.divide v x) ≡ false) × (f.less y (f.divide x v) ≡ false)

module _ (f : Floats) (c : Criterion) (s : Sample) (n : IsNan f s.value) where
  nan-beyond_max : beyond_max f c s ≡ false
  unfolding beyond_max
  nan-beyond_max = elim (Option-cases c.max) [
    | inl q ↦ ground arith
    | inr (m, q) ↦ ground (arith, (n.not_less m).0, (n.not_less m).1)
  ]

  nan-within_ratio : within_ratio f c s ≡ true
  unfolding within_ratio ratio_of
  nan-within_ratio = elim (Option-cases c.max_ratio) [
    | inl q ↦ ground arith
    | inr (m, q) ↦ ground (arith, (n.quotients s.baseline m).0, (n.quotients s.baseline m).1)
  ]

-- A sample that is not a number passes every criterion, whatever its bounds are.
pub nan_passes :
    (f : Floats) (c : Criterion) (s : Sample) → IsNan f s.value → evaluate_criterion f c s ≡ true
unfolding evaluate_criterion
nan_passes f c s n = ground (arith, nan-beyond_max f c s n, nan-within_ratio f c s n)

-- Whether every criterion was sampled and let its sample pass.
abbrev pub all_pass : Floats → (Criterion → Probe) → List Criterion → Bool
all_pass f probe [] = true
all_pass f probe (c ∷ cs) = elim (probe c) [
  | no_sample ↦ false
  | sampled x ↦ evaluate_criterion f c x && all_pass f probe cs
]

go_on-judged :
    (v : Bool) (r : Result (Unit {0}) × Store) (rest : Round × Store) (b : Bool)
    → (go_on v r rest).0 ≡ judged b
    → (r.0 ≡ ok tt)
      × (b' : Bool) × (rest.0 ≡ judged b')
      × (b ≡ (v && b'))
      × ((go_on v r rest).1 ≡ rest.1)
go_on-judged v (err x, s) rest b e = absurd (ground arith)
go_on-judged v (ok u, s) (judged b', s') b e = (refl, b', refl, ground arith, refl)
go_on-judged v (ok u, s) (errored, s') b e = absurd (ground arith)
go_on-judged v (ok u, s) (cancelled_round, s') b e = absurd (ground arith)

module _ (p : Platform) (f : Floats) (env : Env) (d : Deployment) (probe : Criterion → Probe) where
  abbrev pub healths : List Criterion → List HealthSample
  healths [] = []
  healths (c ∷ cs) = elim (probe c) [
    | no_sample ↦ []
    | sampled x ↦ health_of p f env d c x ∷ healths cs
  ]

  record_sample-ok :
      (h : HealthSample) (s : Store) (u : Unit {0})
      → (record_sample p env h s).0 ≡ ok u
      → slice h.deployment_id (record_sample p env h s).1.samples
        ≡ slice h.deployment_id s.samples ++ h ∷ []
  unfolding record_sample run_after
  record_sample-ok h s u e = go (commit_tx-Ended p env (health h) [] (add_sample h ∷ []) s) e
    where
      go :
          {r : Result (Unit {0}) × Store}
          → Ended p (add_sample h ∷ []) s r
          → r.0 ≡ ok u
          → slice h.deployment_id r.1.samples ≡ slice h.deployment_id s.samples ++ h ∷ []
      go (landed j) q = ground (
        arith,
        lookup-insert_self h.deployment_id (slice h.deployment_id s.samples ++ h ∷ []) s.samples,
      )
      go (not_written y j) q = absurd (ground arith)

  -- A round that comes to a verdict has asked for every criterion, recorded one sample for each in
  -- their order, with its own verdict, and passes exactly when all of them do.
  pub sample_all-judged :
      (cs : List Criterion) (s : Store) (b : Bool)
      → (sample_all p f env d probe cs s).0 ≡ judged b
      → (b ≡ all_pass f probe cs)
        × (slice d.id (sample_all p f env d probe cs s).1.samples
            ≡ slice d.id s.samples ++ healths cs)
  unfolding sample_all
  sample_all-judged [] s b e = (ground arith, sym (append-nil (slice d.id s.samples)))
  sample_all-judged (c ∷ cs) s b e = go (λ t b'. sample_all-judged cs t b') (probe c) refl
    where
      go :
          ((t : Store) (b' : Bool)
            → (sample_all p f env d probe cs t).0 ≡ judged b'
            → (b' ≡ all_pass f probe cs)
              × (slice d.id (sample_all p f env d probe cs t).1.samples
                  ≡ slice d.id t.samples ++ healths cs))
          → (q : Probe) → probe c ≡ q
          → (b ≡ all_pass f probe (c ∷ cs))
            × (slice d.id (sample_all p f env d probe (c ∷ cs) s).1.samples
                ≡ slice d.id s.samples ++ healths (c ∷ cs))
      go ih no_sample q = absurd (let e' = rw (q, sample_all) at e in ground arith)
      go ih (sampled x) q =
          let h = health_of p f env d c x in
          let r = record_sample p env h s in
          let e' = rw (q, sample_all) at e in
          let (done, b', judged', verdict, same) =
            go_on-judged (evaluate_criterion f c x) r (sample_all p f env d probe cs r.1) b e' in
          let (all, kept) = ih r.1 b' judged' in
          rw (q, all_pass, healths, sample_all)
            (
              verdict ∙ ap (λ t. evaluate_criterion f c x && t) all,
              ap (λ (t : Store). slice d.id t.samples) same
                  ∙ kept
                  ∙ ap (λ t. t ++ healths cs) (record_sample-ok h s tt done)
                  ∙ append_assoc (slice d.id s.samples) (h ∷ []) (healths cs),
            )
