-- ===== src/Engine/Gates.antt =====
-- internal/engine/executor.go: the gates of an environment. The wait for an approval runs on fuel,
-- one for each poll of the store.
pub mod Consent
use dev_ops_pipeline_orchest.Prelude.{
  Bool, List, String, [], false, if◌then◌else◌, lookup, ltb, none, not, some, suc, true, zero, ℕ,
  ◌&&◌, ◌+◌, ◌==◌, ◌||◌, ◌∷◌, string_eq, nat_eq,
}
use dev_ops_pipeline_orchest.Store.Rows.{Approval, Deployment, Time, ok, resource}
use dev_ops_pipeline_orchest.Config.Schema.{
  Config, DenyWindow, Gate, GateType, Identity, Moment, approval_gate, can, env_policy_for,
  freeze_gate, other_gate, schedule_gate, window_contains,
}
use dev_ops_pipeline_orchest.Engine.World.{
  M, World, ask, bad_timezone, blocked_deploy, context_ended, fail, guard, if_some, look, now_time,
  out_of_polls, pure, the_dep, ◌>>=◌, ◌>>◌,
}
use dev_ops_pipeline_orchest.Store.Queries.{approvals_of}
use dev_ops_pipeline_orchest.Store.Tables.{active_freeze}

-- needsApproval
unfoldable pub needs_approval : List Gate → Bool
needs_approval [] = false
needs_approval (g ∷ gs) =
    let rest = needs_approval gs in elim g.kind [ approval_gate ↦ true | _ ↦ rest ]

unfoldable pub holds : List String → String → Bool
holds [] want = false
holds (have ∷ rs) want = if want == have then true else holds rs want

-- holdsAnyRole
unfoldable pub holds_any_role : Identity → List String → Bool
holds_any_role u [] = false
holds_any_role u (want ∷ roles) = if holds u.roles want then true else holds_any_role u roles

abbrev pub role_fits : Identity → List String → Bool
role_fits u [] = true
role_fits u (r ∷ rs) = holds_any_role u (r ∷ rs)

-- what ApprovalIsValid asks of a known user
unfoldable pub may_approve : Config → Deployment → Gate → String → Time → Identity → Bool
may_approve c d g user at u =
    if u.disabled
    then false
    else if not (can c (some u) "deploy:approve" d.environment)
    then false
    else if not (role_fits u g.roles)
    then false
    else if (g.require_peer || (env_policy_for c d.environment).require_peer_approval)
        && d.triggered_by == user
    then false
    else not (ltb (d.created_at + g.ttl) at)

-- Executor.ApprovalIsValid: whether it returns no error
unfoldable pub approval_is_valid : Config → Deployment → Gate → String → Time → Bool
approval_is_valid c d g user at = elim (lookup user c.identities) [
  | none ↦ false
  | some u ↦ may_approve c d g user at u
]

unfoldable pub any_valid : Config → Deployment → Gate → List Approval → Bool
any_valid c d g [] = false
any_valid c d g (a ∷ as') =
    if approval_is_valid c d g a.user a.at then true else any_valid c d g as'

unfoldable pub denied : Moment → List DenyWindow → Bool
denied t [] = false
denied t (x ∷ xs) = if window_contains x t then true else denied t xs

module _ (w : World) where
  -- Executor.checkSchedule
  unfoldable pub check_schedule : Gate → M (Unit {0})
  check_schedule g = do
    now ← now_time w
    if_some (w.moment now g.timezone) (λ t. guard (not (denied t g.deny)) blocked_deploy)
        (fail bad_timezone)

  -- one round of the wait, before the next ones
  unfoldable pub poll : Gate → M (Unit {0}) → M (Unit {0})
  poll g next = do
    d ← the_dep
    approvals ← look w (λ env s. ok (approvals_of d.id s))
    if any_valid w.config d g approvals then pure tt else do
      now ← now_time w
      guard (ltb now (d.created_at + g.ttl)) blocked_deploy
      stopped ← ask w.cancelled
      guard (not stopped) context_ended
      next

  -- Executor.waitForApproval
  unfoldable pub wait_for_approval : ℕ → Gate → M (Unit {0})
  wait_for_approval zero g = fail out_of_polls
  wait_for_approval (suc n) g = poll g (wait_for_approval n g)

  -- `if f, frozen := e.store.Freeze(..); frozen`
  unfoldable pub check_freeze : M (Unit {0})
  check_freeze = do
    d ← the_dep
    f ← look w (λ env s. ok (active_freeze env (resource d) s))
    if_some f (λ _. fail blocked_deploy) (pure tt)

  -- one gate; the fuel of a wait is the deadline's time
  unfoldable pub check_gate : GateType → Gate → M (Unit {0})
  check_gate schedule_gate g = check_schedule g
  check_gate freeze_gate g = check_freeze
  check_gate approval_gate g = do d ← the_dep; wait_for_approval (suc (d.created_at + g.ttl)) g
  check_gate other_gate g = pure tt

  -- Executor.awaitGates
  unfoldable pub await_gates : List Gate → M (Unit {0})
  await_gates [] = pure tt
  await_gates (g ∷ gs) = check_gate g.kind g >> await_gates gs
