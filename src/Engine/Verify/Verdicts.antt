-- ===== src/Engine/Verify/Verdicts.antt =====
-- What each verdict says of the rounds that led to it.
use dev_ops_pipeline_orchest.Prelude.{
  Bool-cases, List, [], ap, arith, false, inl, inr, leb, ltb, refl, subst, suc, sym, true, ℕ, ◌&&◌,
  ◌++◌, ◌+◌, ◌<◌, ◌∷◌, ◌≡◌, ◌≤◌, ◌⊎◌, string_eq, nat_eq,
}
use dev_ops_pipeline_orchest.Engine.Verify.{
  Criterion, Round, Tally, Verdict, VerifyPolicy, VerifyResult, aborted, bake_over, cancelled_round,
  errored, healthy, inconclusive, judged, tick, unhealthy, verify, verify_loop,
}

-- The rounds with a sample, the ones with an error, and the samples at the end that failed, or that
-- passed, without one of the other kind between them. Errors do not count among samples.
unfoldable pub judged_in : List Round → ℕ
judged_in [] = 0
judged_in (judged b ∷ rs) = suc (judged_in rs)
judged_in (r ∷ rs) = judged_in rs

unfoldable pub errors_in : List Round → ℕ
errors_in [] = 0
errors_in (errored ∷ rs) = suc (errors_in rs)
errors_in (r ∷ rs) = errors_in rs

unfoldable pub failing_end : ℕ → List Round → ℕ
failing_end n [] = n
failing_end n (judged true ∷ rs) = failing_end 0 rs
failing_end n (judged false ∷ rs) = failing_end (n + 1) rs
failing_end n (r ∷ rs) = failing_end n rs

unfoldable pub passing_end : ℕ → List Round → ℕ
passing_end n [] = n
passing_end n (judged true ∷ rs) = passing_end (n + 1) rs
passing_end n (judged false ∷ rs) = passing_end 0 rs
passing_end n (r ∷ rs) = passing_end n rs

-- Why a verdict is given after the rounds `used`, with `rest` not taken; `t` is what was counted before.
abbrev pub Grounds : VerifyPolicy → Tally → Verdict → List Round → List Round → Type 0
Grounds p t healthy used rest =
    (p.min_samples ≤ t.total + judged_in used)
    × ((rest ≡ []) ⊎ (p.success_threshold ≤ passing_end t.passes used))
Grounds p t unhealthy used rest = p.failure_threshold ≤ failing_end t.fails used
Grounds p t inconclusive used rest =
    (p.max_inconclusive < t.errors + errors_in used)
    ⊎ ((rest ≡ []) × (t.total + judged_in used < p.min_samples))
Grounds p t aborted used rest = (more : List Round) × (rest ≡ cancelled_round ∷ more)

pub record Accounts (p : VerifyPolicy) (t : Tally) (rs : List Round) (r : VerifyResult)
    : Type 0 where
  pub used : List Round
  pub rest : List Round
  pub split : rs ≡ used ++ rest
  pub counted : r.samples ≡ t.total + judged_in used
  pub run_length : r.verdict ≡ unhealthy → r.consecutive_fail ≡ failing_end t.fails used
  pub grounds : Grounds p t r.verdict used rest

abbrev pub no_tally : Tally
no_tally = record { fails = 0; passes = 0; errors = 0; total = 0 }

-- A round in front.
Accounts-tick :
    (p : VerifyPolicy) (t : Tally) (r : Round) (rs : List Round) (v : VerifyResult)
    → (r ≡ cancelled_round → ⊥)
    → Accounts p (tick r t) rs v
    → Accounts p t (r ∷ rs) v
unfolding tick judged_in errors_in failing_end passing_end
Accounts-tick p t cancelled_round rs v n a = absurd (n refl)
Accounts-tick p t errored rs v n a = record {
  used = errored ∷ a.used;
  rest = a.rest;
  split = ap (◌∷◌ errored) a.split;
  counted = a.counted;
  run_length = a.run_length;
  grounds = go v.verdict a.grounds;
}
  where
    go :
        (x : Verdict)
        → Grounds p (tick errored t) x a.used a.rest
        → Grounds p t x (errored ∷ a.used) a.rest
    go healthy g = g
    go unhealthy g = g
    go inconclusive g = ground (arith)
    go aborted g = g
Accounts-tick p t (judged true) rs v n a = record {
  used = judged true ∷ a.used;
  rest = a.rest;
  split = ap (◌∷◌ (judged true)) a.split;
  counted = omega (arith, a.counted);
  run_length = a.run_length;
  grounds = go v.verdict a.grounds;
}
  where
    go :
        (x : Verdict)
        → Grounds p (tick (judged true) t) x a.used a.rest
        → Grounds p t x (judged true ∷ a.used) a.rest
    go healthy g = (omega arith, g.1)
    go unhealthy g = g
    go inconclusive g = ground arith
    go aborted g = g
Accounts-tick p t (judged false) rs v n a = record {
  used = judged false ∷ a.used;
  rest = a.rest;
  split = ap (◌∷◌ (judged false)) a.split;
  counted = omega (arith, a.counted);
  run_length = a.run_length;
  grounds = go v.verdict a.grounds;
}
  where
    go :
        (x : Verdict)
        → Grounds p (tick (judged false) t) x a.used a.rest
        → Grounds p t x (judged false ∷ a.used) a.rest
    go healthy g = (omega arith, g.1)
    go unhealthy g = g
    go inconclusive g = ground arith
    go aborted g = g

pub verify_loop-Accounts :
    (p : VerifyPolicy) (t : Tally) (rs : List Round) → Accounts p t rs (verify_loop p t rs)
unfolding verify_loop bake_over tick judged_in errors_in failing_end passing_end
verify_loop-Accounts p t [] = elim (Bool-cases (ltb t.total p.min_samples)) [
  | inl b ↦ rw b (record {
    used = [];
    rest = [];
    split = refl;
    counted = omega arith;
    run_length = λ e. absurd (ground arith);
    grounds = inr (refl, ground arith);
  })
  | inr b ↦ rw b (record {
    used = [];
    rest = [];
    split = refl;
    counted = omega arith;
    run_length = λ e. absurd (ground arith);
    grounds = (ground arith, inl refl);
  })
]
verify_loop-Accounts p t (cancelled_round ∷ rs) = record {
  used = [];
  rest = cancelled_round ∷ rs;
  split = refl;
  counted = omega arith;
  run_length = λ e. absurd (ground arith);
  grounds = (rs, refl);
}
verify_loop-Accounts p t (errored ∷ rs) =
    let more = verify_loop-Accounts p (tick errored t) rs in
    elim (Bool-cases (ltb p.max_inconclusive (t.errors + 1))) [
      | inl b ↦ rw b (record {
        used = errored ∷ [];
        rest = rs;
        split = refl;
        counted = omega arith;
        run_length = λ e. absurd (ground arith);
        grounds = inl (ground arith);
      })
      | inr b ↦ rw b (Accounts-tick p t errored rs _ (λ e. absurd (ground arith)) more)
    ]
verify_loop-Accounts p t (judged true ∷ rs) =
    let more = verify_loop-Accounts p (tick (judged true) t) rs in
    elim (Bool-cases (leb p.success_threshold (t.passes + 1) && leb p.min_samples (t.total + 1))) [
      | inl b ↦ rw b (record {
        used = judged true ∷ [];
        rest = rs;
        split = refl;
        counted = omega arith;
        run_length = λ e. absurd (ground arith);
        grounds = (ground arith, inr (ground arith));
      })
      | inr b ↦ rw b (Accounts-tick p t (judged true) rs _ (λ e. absurd (ground arith)) more)
    ]
verify_loop-Accounts p t (judged false ∷ rs) =
    let more = verify_loop-Accounts p (tick (judged false) t) rs in
    elim (Bool-cases (leb p.failure_threshold (t.fails + 1))) [
      | inl b ↦ rw b (record {
        used = judged false ∷ [];
        rest = rs;
        split = refl;
        counted = omega arith;
        run_length = λ e. refl;
        grounds = ground arith;
      })
      | inr b ↦ rw b (Accounts-tick p t (judged false) rs _ (λ e. absurd (ground arith)) more)
    ]

verify-checked :
    (p : VerifyPolicy) (c : Criterion) (cs : List Criterion) (rs : List Round)
    → p.criteria ≡ c ∷ cs
    → verify_loop p no_tally rs ≡ verify p rs
unfolding verify
verify-checked p c cs rs e =
    ap
      (λ (xs : List Criterion). elim xs as (λ _. VerifyResult) [
        | [] ↦ record {
          verdict = healthy;
          samples = 0;
          inconclusive_count = 0;
          consecutive_fail = 0;
        }
        | _ ∷ _ ↦ verify_loop p no_tally rs
      ])
      (sym e)

-- The verdict of a verification with criteria rests on a first part of the rounds: HEALTHY on the
-- least number of samples, and on a run of passing samples at its end or on the whole bake window;
-- UNHEALTHY on a run of failing samples at its end as long as the threshold, which is the number
-- that is reported; INCONCLUSIVE on more errors than allowed, or on too few samples in the whole
-- window; ABORTED on a cancellation right behind it. The number of samples reported is theirs.
pub verify-Accounts :
    (p : VerifyPolicy) (c : Criterion) (cs : List Criterion) (rs : List Round)
    → p.criteria ≡ c ∷ cs
    → Accounts p no_tally rs (verify p rs)
verify-Accounts p c cs rs e =
    subst (Accounts p no_tally rs) (verify-checked p c cs rs e) (verify_loop-Accounts p no_tally rs)
