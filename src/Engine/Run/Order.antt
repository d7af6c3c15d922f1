-- ===== src/Engine/Run/Order.antt =====
-- The order of what a run does outside and of the states that it persists.
pub mod Failures
pub mod Runs
use dev_ops_pipeline_orchest.Prelude.{
  Bool, List, Option, String, [], false, none, refl, some, true, ◌&&◌, ◌∙◌, ◌∷◌, ◌≡◌,
}
use dev_ops_pipeline_orchest.Store.State.{State, deploying, rolling_back, verifying, state_eq}
use dev_ops_pipeline_orchest.Engine.World.{
  Effect, Event, M, Machine, World, abort_call, deploy_call, emit, entered, rollback_call,
  shift_call,
}
use dev_ops_pipeline_orchest.Engine.World.Frames.{
  EffectFrame, Steady, Within, Within-ask, Within-modify, Within-the_dep,
}
use dev_ops_pipeline_orchest.Engine.Within.Basics.{Within-transition}
use dev_ops_pipeline_orchest.Engine.World.Triples.{
  Ends, Triple, Triple-always, Triple-bind, Triple-fail, Triple-if_some, Triple-weaken,
}
use dev_ops_pipeline_orchest.Engine.Events.{persist, transition_and_notify}
use dev_ops_pipeline_orchest.Store.Rows.{Deployment}

-- the state that was persisted last
unfoldable pub phase : List Effect → Option State
phase [] = none
phase (entered s ∷ es) = some s
phase (deploy_call r ∷ es) = phase es
phase (rollback_call r ∷ es) = phase es
phase (shift_call n ∷ es) = phase es
phase (abort_call h ∷ es) = phase es

-- the states in which an effect is expected
unfoldable pub fits : Option State → Effect → Bool
fits o (entered s) = true
fits o (abort_call h) = true
fits (some deploying) (deploy_call r) = true
fits (some rolling_back) (rollback_call r) = true
fits (some deploying) (shift_call n) = true
fits (some verifying) (shift_call n) = true
fits (some rolling_back) (shift_call n) = true
fits _ _ = false

-- every effect stands behind the state that it belongs to
unfoldable pub in_order : List Effect → Bool
unfolding fits phase
in_order [] = true
in_order (e ∷ es) = fits (phase es) e && in_order es

abbrev pub InOrder : Machine → Type 0
InOrder m = in_order m.trace ≡ true

abbrev pub InPhase : State → Machine → Type 0
InPhase s m = (in_order m.trace ≡ true) × (phase m.trace ≡ some s)

-- an effect that fits a state, and that persists none
pub record Calm (s : State) (e : Effect) : Type 0 where
  pub here : fits (some s) e ≡ true
  pub silent : (es : List Effect) → phase (e ∷ es) ≡ phase es

module _ (w : World) where
  -- operations in one state
  unfoldable pub phase_frame : State → EffectFrame w
  unfolding in_order
  phase_frame s = record {
    Rel = λ m n. InPhase s m → InPhase s n;
    Admits = Calm s;
    Turns = λ g. Unit {0};
    same = λ m h. h;
    chain = λ h k x. k (h x);
    called = λ op m h. h;
    looked = λ m h. h;
    ticked = λ m h. h;
    turned = λ g m t h. h;
    emitted = λ e m c h. (rw (h.1, c.here) (h.0), c.silent m.trace ∙ h.1);
  }

  -- operations that do nothing that needs a state
  unfoldable pub order_frame : EffectFrame w
  unfolding in_order
  order_frame = record {
    Rel = λ m n. InOrder m → InOrder n;
    Admits = λ e. (o : Option State) → fits o e ≡ true;
    Turns = λ g. Unit {0};
    same = λ m h. h;
    chain = λ h k x. k (h x);
    called = λ op m h. h;
    looked = λ m h. h;
    ticked = λ m h. h;
    turned = λ g m t h. h;
    emitted = λ e m c h. rw (c (phase m.trace)) h;
  }

  pub kept : {A : Type 0} (x : M A) → Within w order_frame x → Triple InOrder x InOrder InOrder
  unfolding order_frame
  kept x h = Triple-always x h.at (λ m k. k)

  pub in_phase :
      {A : Type 0} (s : State) (x : M A)
      → Within w (phase_frame s) x
      → Triple (InPhase s) x (InPhase s) InOrder
  unfolding phase_frame
  in_phase s x h = Triple-always x h.at (λ m k. k.0)

  pub enters : (s : State) → (order_frame).Admits (entered s)
  unfolding order_frame fits
  enters s o = refl

  entered-InPhase : (to : State) → Triple InOrder (emit (entered to)) (InPhase to) InOrder
  unfolding in_order fits phase Ends emit
  entered-InPhase to = record { at = λ m h. (h, refl) }

  persist-InPhase :
      (to : State) (reason payload : String)
      → Triple InOrder (persist w to reason payload) (InPhase to) InOrder
  unfolding persist order_frame
  persist-InPhase to reason payload = Triple-bind _ _ (kept _ (Within-the_dep w)) λ d.
      Triple-bind _ _ (kept _ (Within-ask w _)) λ at.
        Triple-bind _ _ (kept _ (Within-transition w order_frame (λ g h. tt) _ _ _ _ _ _))
          λ u. Triple-bind _ _ (kept _ (Within-modify w _ tt)) λ v. entered-InPhase to

  pub transition_and_notify-InPhase :
      (to : State) (ev : Event)
      → Triple InOrder (transition_and_notify w to ev) (InPhase to) InOrder
  unfolding transition_and_notify
  transition_and_notify-InPhase to ev =
      Triple-if_some _ _ _ (persist-InPhase to ev.reason) (Triple-fail _ (λ m h. h))

  pub out_of :
      {A : Type 0} {Q : Machine → Type 0} (s : State) (x : M A)
      → Triple InOrder x Q InOrder
      → Triple (InPhase s) x Q InOrder
  out_of s x h = Triple-weaken x h (λ m k. k.0) (λ m k. k) (λ m k. k)

  pub free : (g : Deployment → Deployment) → Steady g → (order_frame).Turns g
  unfolding order_frame
  free g h = tt

  pub loose : (s : State) (g : Deployment → Deployment) → Steady g → (phase_frame s).Turns g
  unfolding phase_frame
  loose s g h = tt
