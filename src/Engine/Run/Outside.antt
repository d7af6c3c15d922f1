-- ===== src/Engine/Run/Outside.antt =====
-- Who asks the provider for anything, and who does not.
use dev_ops_pipeline_orchest.Prelude.{
  Bool, List, [], ap, false, not, refl, sym, ◌&&◌, ◌∙◌, ◌∷◌, ◌≡◌,
}
use dev_ops_pipeline_orchest.Store.State.{State}
use dev_ops_pipeline_orchest.Store.Rows.{Deployment}
use dev_ops_pipeline_orchest.Engine.Reconcile.{reconcile}
use dev_ops_pipeline_orchest.Engine.Failure.{handle_failure, is_blocked, is_inconclusive, respond}
use dev_ops_pipeline_orchest.Engine.World.{
  Cause, Effect, M, Machine, Outcome, World, abort_call, deploy_call, done, entered, failure,
  rollback_call, shift_call,
}
use dev_ops_pipeline_orchest.Engine.World.Frames.{EffectFrame, Steady, Within}
use dev_ops_pipeline_orchest.Config.Schema.{AppEnv}
use dev_ops_pipeline_orchest.Engine.Within.Basics.{Within-record_error}
use dev_ops_pipeline_orchest.Engine.Within.Failure.{
  Within-refresh_state, Within-settle_calm, would_roll_back,
}
use dev_ops_pipeline_orchest.Engine.Within.Reconcile.{Within-reconcile}
use dev_ops_pipeline_orchest.Engine.World.Triples.{
  Ends, Triple, Triple-always, Triple-bind, Triple-the_dep,
}

-- what was asked of the provider
unfoldable pub outside : List Effect → List Effect
outside [] = []
outside (entered s ∷ es) = outside es
outside (deploy_call r ∷ es) = deploy_call r ∷ outside es
outside (rollback_call r ∷ es) = rollback_call r ∷ outside es
outside (shift_call n ∷ es) = shift_call n ∷ outside es
outside (abort_call h ∷ es) = abort_call h ∷ outside es

module _ (w : World) where
  -- nothing is asked of the provider
  quiet_frame : EffectFrame w
  quiet_frame = record {
    Rel = λ m n. outside n.trace ≡ outside m.trace;
    Admits = λ e. (es : List Effect) → outside (e ∷ es) ≡ outside es;
    Turns = λ g. Unit {0};
    same = λ m. refl;
    chain = λ h k. k ∙ h;
    called = λ op m. refl;
    looked = λ m. refl;
    ticked = λ m. refl;
    turned = λ g m t. refl;
    emitted = λ e m h. h m.trace;
  }

  -- the deployment stays the one that it is
  kind_frame : EffectFrame w
  kind_frame = record {
    Rel = λ m n. n.dep.is_rollback ≡ m.dep.is_rollback;
    Admits = λ e. Unit {0};
    Turns = Steady;
    same = λ m. refl;
    chain = λ h k. k ∙ h;
    called = λ op m. refl;
    looked = λ m. refl;
    ticked = λ m. refl;
    turned = λ g m t. t.same_kind m.dep;
    emitted = λ e m h. refl;
  }

  quiet-enters : (s : State) → quiet_frame.Admits (entered s)
  unfolding quiet_frame outside
  quiet-enters s es = refl

  -- What a crash has left is recovered without a deploy, a rollback, a shift of traffic or an abort:
  -- the recovery reads what the provider runs, and asks nothing of it.
  pub reconcile_asks_nothing : (m : Machine) → outside (reconcile w m).1.trace ≡ outside m.trace
  unfolding quiet_frame
  reconcile_asks_nothing = (Within-reconcile w quiet_frame (λ g h. tt) quiet-enters (λ d. tt)).at

  abbrev Before : List Effect → Bool → Machine → Type 0
  Before es b m = (outside m.trace ≡ es) × (m.dep.is_rollback ≡ b)

  keeping :
      {A : Type 0} {es : List Effect} {b : Bool} (x : M A)
      → Within w quiet_frame x
      → Within w kind_frame x
      → Triple (Before es b) x (Before es b) (λ m. outside m.trace ≡ es)
  unfolding quiet_frame kind_frame
  keeping x hq hk = Triple-always x (λ m k. (hq.at m ∙ k.0, hk.at m ∙ k.1)) (λ m k. k.0)

  respond-quiet :
      (cfg : AppEnv) (c : Cause) (es : List Effect) (d : Deployment)
      → would_roll_back cfg c d ≡ false
      → Triple
          (λ m. outside m.trace ≡ es)
          (respond w cfg c d)
          (λ m. outside m.trace ≡ es)
          (λ m. outside m.trace ≡ es)
  unfolding quiet_frame
  respond-quiet cfg c es d h =
      Triple-always _
        (λ m k. (Within-settle_calm w quiet_frame (λ g t. tt) quiet-enters cfg c d h).at m ∙ k)
        (λ m k. k)

  handle_failure-quiet :
      (cfg : AppEnv) (c : Cause) (es : List Effect) (b : Bool)
      → (not b && (not (is_blocked c) && (not (is_inconclusive c) && cfg.rollback.automatic)))
        ≡ false
      → Triple
          (Before es b)
          (handle_failure w cfg c)
          (λ m. outside m.trace ≡ es)
          (λ m. outside m.trace ≡ es)
  unfolding handle_failure would_roll_back kind_frame quiet_frame
  handle_failure-quiet cfg c es b h =
      Triple-bind _ _
        (keeping _ (Within-refresh_state w quiet_frame (λ g t. tt) quiet-enters)
          (Within-refresh_state w kind_frame (λ g t. t) (λ s. tt)))
        λ u.
          Triple-bind _ _
            (keeping _ (Within-record_error w quiet_frame (λ g t. tt) c)
              (Within-record_error w kind_frame (λ g t. t) c))
            λ v. Triple-the_dep _ λ d. record {
              at = λ m k.
                  let q : d.is_rollback ≡ b =
                    sym (ap (λ (x : Deployment). x.is_rollback) k.1) ∙ k.0.1 in
                  (respond-quiet cfg c es d (rw q h)).at m k.0.0;
            }

  -- A failure is answered without asking the provider for anything where the deployment is itself a
  -- rollback, where the cause is a block or an inconclusive verification, and where the environment
  -- does not roll back by itself.
  pub no_rollback_asks_nothing :
      (cfg : AppEnv) (c : Cause) (m : Machine)
      → would_roll_back cfg c m.dep ≡ false
      → outside (handle_failure w cfg c m).1.trace ≡ outside m.trace
  unfolding would_roll_back Ends
  no_rollback_asks_nothing cfg c m h =
      either (handle_failure w cfg c m)
        ((handle_failure-quiet cfg c (outside m.trace) m.dep.is_rollback h).at m (refl, refl))
    where
      either :
          (r : Outcome (Unit {0}) × Machine)
          → Ends (λ n. outside n.trace ≡ outside m.trace) (λ n. outside n.trace ≡ outside m.trace) r
          → outside r.1.trace ≡ outside m.trace
      either (done u, n) k = k
      either (failure x, n) k = k
