-- ===== src/Engine/Run/Loaded.antt =====
-- The row that a run works on is the one that it was asked for.
use dev_ops_pipeline_orchest.Prelude.{
  String, ap, arith, lookup, not, refl, some, sym, ◌∙◌, ◌≡◌, ◌⧺◌,
}
use dev_ops_pipeline_orchest.Store.State.{aborted, is_terminal}
use dev_ops_pipeline_orchest.Store.Rows.{Deployment, Result, err, ok}
use dev_ops_pipeline_orchest.Store.Deployments.{get_deployment}
use dev_ops_pipeline_orchest.Store.Progress.Promises.{Calls-Advances}
use dev_ops_pipeline_orchest.Config.Schema.{AppEnv, app_env}
use dev_ops_pipeline_orchest.Engine.World.{
  Machine, World, already_ended, call, continue_with, fail, guard, if_some, modify, of_result, pure,
  the_row, unknown_target, ◌>>=◌, ◌>>◌,
}
use dev_ops_pipeline_orchest.Engine.World.Frames.{
  EffectFrame, Steady, Within, Within-bind, Within-guard, frame_rules, met,
}
use dev_ops_pipeline_orchest.Engine.World.Triples.{Ends, Triple, Triple-always, Triple-bind}
use dev_ops_pipeline_orchest.Engine.Events.{event_for, transition_and_notify}
use dev_ops_pipeline_orchest.Engine.Run.{
  abort, all_steps, break_own, load, run, run_steps, stop_provider, under_lease,
}
use dev_ops_pipeline_orchest.Engine.Run.Calls.{run_others-Calls}
use dev_ops_pipeline_orchest.Engine.Within.Run.{
  Within-abort_loaded, Within-all_steps, Within-under_lease,
}

-- the row in memory has the id
abbrev pub IsOf : String → Machine → Type 0
IsOf id m = m.dep.id ≡ id

-- the store holds a row with the id under the id
abbrev pub HasRow : String → Machine → Type 0
HasRow id m = (d : Deployment) × (lookup id m.store.deployments ≡ some d) × (d.id ≡ id)

abbrev Any : Machine → Type 0
Any m = Unit {0}

unfoldable keeps_id : (w : World) → EffectFrame w
keeps_id w = record {
  Rel = λ m n. n.dep.id ≡ m.dep.id;
  Admits = λ e. Unit {0};
  Turns = λ g. (d : Deployment) → (g d).id ≡ d.id;
  same = λ m. refl;
  chain = λ h k. k ∙ h;
  called = λ op m. refl;
  looked = λ m. refl;
  ticked = λ m. refl;
  turned = λ g m h. h m.dep;
  emitted = λ e m h. refl;
}

module _ (w : World) where
  keeps_id-Steady : (g : Deployment → Deployment) → Steady g → (keeps_id w).Turns g
  unfolding keeps_id
  keeps_id-Steady g h = h.same_id

  Within-all : (cfg : AppEnv) → Within w (keeps_id w) (run_steps w cfg (all_steps w cfg))
  unfolding keeps_id
  Within-all cfg =
      Within-all_steps w (keeps_id w) keeps_id-Steady (λ s. tt) (λ r. tt) (λ r. tt) (λ n. tt)
        (λ d. refl) cfg

  under_lease-keeps :
      (d : Deployment) (cfg : AppEnv)
      → Within w (keeps_id w) (under_lease w d (run_steps w cfg (all_steps w cfg)))
  under_lease-keeps d cfg = Within-under_lease w (keeps_id w) keeps_id-Steady d _ (Within-all cfg)

  load-IsOf : (id : String) → Triple (HasRow id) (load w id) (IsOf id) Any
  unfolding load call ◌>>=◌ get_deployment modify pure Ends
  load-IsOf id = record { at = λ m h. onward _ _ (stored m h) }
    where
      stored :
          (m : Machine)
          → HasRow id m
          → (d : Deployment) → get_deployment id (met w m) ≡ ok d
          → d.id ≡ id
      stored m (d0, e, named) d q =
          let calls = run_others-Calls w.platform (w.others m.clock) m.store in
          let (d', e', (i, ts, k)) = (Calls-Advances w.platform calls).rows id d0 e in
          let same : d' ≡ d = ground arith in sym (ap (λ (y : Deployment). y.id) same) ∙ i named

      onward :
          (r : Result Deployment) (m : Machine)
          → ((d : Deployment) → r ≡ ok d → d.id ≡ id)
          → Ends (IsOf id) Any (continue_with (λ d. modify (the_row d) >> pure d) (of_result r, m))
      onward (ok d) m k = k d refl
      onward (err x) m k = tt

  -- A run ends on the row that it was asked for.
  pub run-IsOf : (id : String) → Triple (HasRow id) (run w id) (IsOf id) Any
  unfolding run keeps_id
  run-IsOf id =
      Triple-bind _ _ (load-IsOf id) λ d. Triple-always _ (λ m h. (rest d).at m ∙ h) (λ m h. tt)
    where
      rest :
          (d : Deployment)
          → Within w (keeps_id w) (
              guard (not (is_terminal d.state)) already_ended
              >> if_some
                  (app_env w.config d.app d.environment)
                  (λ cfg. under_lease w d (run_steps w cfg (all_steps w cfg)))
                  (fail unknown_target))
      rest d = search (frame_rules, under_lease-keeps)

  -- An abort ends on the row that it was asked for.
  pub abort-IsOf : (id actor : String) → Triple (HasRow id) (abort w id actor) (IsOf id) Any
  unfolding abort keeps_id
  abort-IsOf id actor =
      Triple-bind _ _ (load-IsOf id) λ d. Triple-always _ (λ m h. (rest d).at m ∙ h) (λ m h. tt)
    where
      rest :
          (d : Deployment)
          → Within w (keeps_id w) (do
            guard (not (is_terminal d.state)) already_ended
            stop_provider w d
            break_own w d actor
            under_lease w d do
              ev ← event_for w aborted ("aborted by " ⧺ actor)
              transition_and_notify w aborted (record ev { actor = actor }))
      rest d =
          Within-bind w _ _ (Within-guard w _ _)
            (λ u. Within-abort_loaded w (keeps_id w) keeps_id-Steady (λ s. tt) d actor (λ h. tt))
