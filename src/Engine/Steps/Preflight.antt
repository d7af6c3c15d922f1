-- ===== src/Engine/Steps/Preflight.antt =====
-- What a preflight that passes has established.
use dev_ops_pipeline_orchest.Prelude.{
  String, ap, arith, eq_iff, false, not, refl, true, ℕ, ◌&&◌, ◌+◌, ◌==◌, ◌||◌, ◌∙◌, ◌≡◌, ◌≢◌,
  string_eq,
}
use dev_ops_pipeline_orchest.Config.Schema.{AppEnv}
use dev_ops_pipeline_orchest.Engine.World.{
  Current, M, Machine, Outcome, World, ask, blocked_deploy, call, continue_with, done, fail,
  failure, guard, live_version, modify, pure, the_dep, unknown_live, unreadable,
  unsupported_strategy, with_previous, ◌>>=◌, ◌>>◌,
}
use dev_ops_pipeline_orchest.Engine.Steps.{
  check_history, check_target, find_provider, moves_traffic, preflight_step, read_current, save,
  version_of,
}
use dev_ops_pipeline_orchest.Engine.World.Triples.{
  Ends, Triple, Triple-always, Triple-bind, Triple-guard, Triple-test, Triple-the_dep,
  Triple-weaken,
}
use dev_ops_pipeline_orchest.Engine.Within.Steps.{Within-check_history}
use dev_ops_pipeline_orchest.Engine.World.Frames.{EffectFrame, Steady}
use dev_ops_pipeline_orchest.Store.Rows.{Deployment}

module _ (w : World) (cfg : AppEnv) where
  -- the provider is there, takes the target, and can do what the strategy needs
  pub record Fit : Type 0 where
    pub registered : w.registered cfg.provider ≡ true
    pub valid : w.valid_target cfg ≡ true
    pub able : (not (moves_traffic cfg.strategy.kind) || w.shifts_traffic cfg.provider) ≡ true

  -- the version that the provider reported is in the row, and is another one but for a rollback
  pub record Passed (n : Machine) : Type 0 where
    pub fit : Fit
    pub asked_at : ℕ
    pub answer : w.current asked_at ≡ live_version n.dep.previous_version
    pub another : n.dep.is_rollback ≡ false → n.dep.previous_version ≢ n.dep.version

  abbrev Any : Machine → Type 0
  Any m = Unit {0}

  some_way : {A : Type 0} (x : M A) → Triple Any x Any Any
  some_way x = Triple-always x (λ m h. tt) (λ m h. tt)

  check_target-Fit : Triple Any (check_target w cfg) (λ m. Fit) Any
  unfolding check_target find_provider
  check_target-Fit =
      Triple-guard _ _ _ (λ a. Triple-guard _ _ _ (last_guard a) (λ m h. tt)) (λ m h. tt)
    where
      last_guard :
          w.registered cfg.provider ≡ true
          → w.valid_target cfg ≡ true
          → Triple Any
              (guard
                (not (moves_traffic cfg.strategy.kind) || w.shifts_traffic cfg.provider)
                unsupported_strategy)
              (λ m. Fit)
              Any
      last_guard a b =
          Triple-test _ _ (λ m h e. record { registered = a; valid = b; able = e }) (λ m h. tt)

  read-version :
      {Q : Machine → Type 0} (g : String → M (Unit {0}))
      → ((v : String) (k : ℕ) → w.current k ≡ live_version v → Triple (λ m. Fit) (g v) Q Any)
      → Triple (λ m. Fit) (read_current w >>= g) Q Any
  unfolding read_current version_of ask pure fail ◌>>=◌ Ends
  read-version {Q} g h = record { at = λ m k. onward m (w.current m.clock) refl k }
    where
      onward :
          (m : Machine) (c : Current)
          → w.current m.clock ≡ c
          → Fit
          → Ends Q Any (continue_with g (version_of w c (record m { clock = m.clock + 1 })))
      onward m unreadable e k = tt
      onward m unknown_live e k = tt
      onward m (live_version v) e k = (h v m.clock e).at (record m { clock = m.clock + 1 }) k

  -- the row is still the one of this deployment
  abbrev Same : Deployment → Machine → Type 0
  Same d m = (m.dep.version ≡ d.version) × (m.dep.is_rollback ≡ d.is_rollback)

  same_frame : EffectFrame w
  same_frame = record {
    Rel = λ m n. Same m.dep n;
    Admits = λ e. Unit {0};
    Turns = Steady;
    same = λ m. (refl, refl);
    chain = λ h k. (k.0 ∙ h.0, k.1 ∙ h.1);
    called = λ op m. (refl, refl);
    looked = λ m. (refl, refl);
    ticked = λ m. (refl, refl);
    turned = λ g m t. (t.same_version m.dep, t.same_kind m.dep);
    emitted = λ e m h. (refl, refl);
  }

  history-Same : (d : Deployment) → Triple (Same d) (check_history w cfg d) (Same d) Any
  unfolding same_frame
  history-Same d =
      Triple-always _
        (λ m h.
          let k = (Within-check_history w same_frame (λ g t. t) cfg d).at m in
          (k.0 ∙ h.0, k.1 ∙ h.1))
        (λ m h. tt)

  save-Passed :
      (d : Deployment) (v : String) (k : ℕ)
      → Fit
      → w.current k ≡ live_version v
      → not (v == d.version && not d.is_rollback) ≡ true
      → Triple (Same d) (save w (with_previous v)) Passed Any
  unfolding save modify the_dep call ◌>>=◌
  save-Passed d v k fit e free =
      Triple-always _
        (λ m h. record {
          fit = fit;
          asked_at = k;
          answer = e;
          another = λ q r. ground (arith, eq_iff v d.version, h.0, h.1);
        })
        (λ m h. tt)

  rest-Passed :
      (v : String) (k : ℕ)
      → w.current k ≡ live_version v
      → Fit
      → Triple Any
          (the_dep >>= λ d.
            guard (not (v == d.version && not d.is_rollback)) blocked_deploy
            >> (check_history w cfg d >> save w (with_previous v)))
          Passed
          Any
  rest-Passed v k e fit = Triple-the_dep _ λ d.
      Triple-guard _ _ _
        (λ free.
          Triple-bind _ _
            (Triple-weaken _ (history-Same d)
              (λ m h. (
                ap (λ (x : Deployment). x.version) h.1,
                ap (λ (x : Deployment). x.is_rollback) h.1,
              ))
              (λ m h. h) (λ m h. h))
            (λ u. save-Passed d v k fit e free))
        (λ m h. tt)

  preflight-Passed : Triple Any (preflight_step w cfg) Passed Any
  unfolding preflight_step
  preflight-Passed = Triple-bind _ _ (some_way _) λ a. Triple-bind _ _ (some_way _) λ b.
      Triple-bind _ _ check_target-Fit
        λ c. read-version _ λ v k e. record { at = λ m fit. (rest-Passed v k e fit).at m tt }

  -- A preflight that passes has found the provider registered, the target valid for it and the
  -- strategy within what it can do; the row names as the previous version what the provider reported
  -- as running, and, but for a rollback, that is not the version that is to be deployed.
  pub preflight_establishes :
      (m : Machine) → (preflight_step w cfg m).0 ≡ done tt → Passed (preflight_step w cfg m).1
  unfolding Ends
  preflight_establishes m h = onward (preflight_step w cfg m) h (preflight-Passed.at m tt)
    where
      onward : (r : Outcome (Unit {0}) × Machine) → r.0 ≡ done tt → Ends Passed Any r → Passed r.1
      onward (done u, n) e k = k
      onward (failure c, n) e k = absurd (ground arith)
