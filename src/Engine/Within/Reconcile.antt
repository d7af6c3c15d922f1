-- ===== src/Engine/Within/Reconcile.antt =====
-- The recovery of what a crash has left: it asks for no effect but moves.
use dev_ops_pipeline_orchest.Prelude.{List, String, [], refl, ◌∷◌}
use dev_ops_pipeline_orchest.Store.State.{State}
use dev_ops_pipeline_orchest.Store.Rows.{AuditEntry, Deployment}
use dev_ops_pipeline_orchest.Store.Operations.{note_audit, run_op}
use dev_ops_pipeline_orchest.Engine.Reconcile.{
  Finding, ReconcileResult, act_on, audit_unknown, enter_unknown, examine, mark_unknown, mystery,
  never_landed, never_started, next_orphan, reconcile, reconcile_all, reconcile_transition,
  record_unknown, recover_one, recover_to, resume,
}
use dev_ops_pipeline_orchest.Engine.World.{Cause, World, call, entered, the_row}
use dev_ops_pipeline_orchest.Engine.World.Frames.{
  EffectFrame, Steady, Within, Within-bind, Within-call, Within-pure, frame_rules,
}
use dev_ops_pipeline_orchest.Engine.Within.Basics.{
  Within-event_for, Within-record_error, Within-transition_and_notify,
}
use dev_ops_pipeline_orchest.Engine.Within.Run.{Within-under_lease}
use dev_ops_pipeline_orchest.Store.Audit.{append_audit}
use dev_ops_pipeline_orchest.Store.Transactions.{Env}

module _ (w : World) (f : EffectFrame w)
    (same : (g : Deployment → Deployment) → Steady g → f.Turns g)
    (enters : (s : State) → f.Admits (entered s)) where
  Within-append_audit :
      (x : Env → AuditEntry) → Within w f (call w (λ env. append_audit w.platform env (x env)))
  unfolding run_op
  Within-append_audit x = Within-call w (λ env. note_audit (x env)) _ (λ env s. refl)

  Within-audit_unknown : (c : Cause) → Within w f (audit_unknown w c)
  unfolding audit_unknown
  Within-audit_unknown c = search (frame_rules, Within-append_audit)

  Within-enter_unknown : (c : Cause) → Within w f (enter_unknown w c)
  unfolding enter_unknown
  Within-enter_unknown c =
      search (frame_rules, same, Within-event_for, Within-transition_and_notify, enters)

  pub Within-mark_unknown : (c : Cause) → Within w f (mark_unknown w c)
  unfolding mark_unknown record_unknown
  Within-mark_unknown c =
      search
        (
          frame_rules, same, Within-under_lease, Within-record_error, Within-enter_unknown,
          Within-audit_unknown,
        )
        depth 9

  Within-recover_to : (to : State) (reason : String) → Within w f (recover_to w to reason)
  unfolding recover_to
  Within-recover_to to reason =
      search
        (
          frame_rules, same, Within-event_for, Within-transition_and_notify, enters,
          Within-mark_unknown,
        )
        depth 9

  pub Within-reconcile_transition :
      (to : State) (reason : String) → Within w f (reconcile_transition w to reason)
  unfolding reconcile_transition
  Within-reconcile_transition to reason =
      search (frame_rules, same, Within-under_lease, Within-recover_to)

  pub Within-act_on : (x : Finding) → Within w f (act_on w x)
  unfolding act_on
  Within-act_on resume = Within-reconcile_transition _ _
  Within-act_on never_started = Within-reconcile_transition _ _
  Within-act_on never_landed = Within-reconcile_transition _ _
  Within-act_on (mystery c) = Within-mark_unknown c

  Within-examine : (d : Deployment) → Within w f (examine w d)
  unfolding examine
  Within-examine d = search frame_rules depth 9

  module _ (rows : (d : Deployment) → f.Turns (the_row d)) where
    Within-recover_one : (d : Deployment) (r : ReconcileResult) → Within w f (recover_one w d r)
    unfolding recover_one
    Within-recover_one d r = search (frame_rules, rows, Within-examine, Within-act_on) depth 9

    Within-next_orphan : (d : Deployment) (r : ReconcileResult) → Within w f (next_orphan w d r)
    unfolding next_orphan
    Within-next_orphan d r = search (frame_rules, Within-recover_one)

    Within-reconcile_all :
        (ds : List Deployment) (r : ReconcileResult) → Within w f (reconcile_all w ds r)
    unfolding reconcile_all
    Within-reconcile_all [] r = Within-pure w r
    Within-reconcile_all (d ∷ ds) r =
        Within-bind w _ _ (Within-next_orphan d r) (λ r'. Within-reconcile_all ds r')

    pub Within-reconcile : Within w f (reconcile w)
    unfolding reconcile
    Within-reconcile = search (frame_rules, Within-reconcile_all)
