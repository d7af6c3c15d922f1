-- ===== src/Engine/Run/Calls.antt =====
-- The frame of what changes the store through calls of the store's methods, its own or others'.
use dev_ops_pipeline_orchest.Prelude.{List, [], ◌∷◌}
use dev_ops_pipeline_orchest.Store.Operations.{Calls, Op, no_call, run_op, then_call}
use dev_ops_pipeline_orchest.Store.Transactions.{Env, Platform, Store}
use dev_ops_pipeline_orchest.Engine.World.{World, run_others}
use dev_ops_pipeline_orchest.Engine.World.Frames.{EffectFrame}

pub Calls-trans : (p : Platform) {a b c : Store} → Calls p a b → Calls p b c → Calls p a c
Calls-trans p no_call k = k
Calls-trans p (then_call env op h) k = then_call env op (Calls-trans p h k)

pub run_others-Calls :
    (p : Platform) (ops : List (Env × Op)) (s : Store) → Calls p s (run_others p ops s)
unfolding run_others
run_others-Calls p [] s = no_call
run_others-Calls p ((env, op) ∷ ops) s =
    then_call env op (run_others-Calls p ops (run_op p env op s))

unfoldable pub calls_frame : (w : World) → EffectFrame w
calls_frame w = record {
  Rel = λ m n. Calls w.platform m.store n.store;
  Admits = λ e. Unit {0};
  Turns = λ g. Unit {0};
  same = λ m. no_call;
  chain = λ h k. Calls-trans w.platform h k;
  called = λ op m.
      Calls-trans w.platform (run_others-Calls w.platform (w.others m.clock) m.store)
        (then_call (w.env m.clock) op no_call);
  looked = λ m. run_others-Calls w.platform (w.others m.clock) m.store;
  ticked = λ m. no_call;
  turned = λ g m h. no_call;
  emitted = λ e m h. no_call;
}
