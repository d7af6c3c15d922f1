-- ===== src/Engine/Run/Success.antt =====
-- What the success of a run says of the store.
use dev_ops_pipeline_orchest.Engine.Steps.{refused}
use dev_ops_pipeline_orchest.Engine.Run.Loaded.{IsOf, abort-IsOf, run-IsOf}
use dev_ops_pipeline_orchest.Prelude.{
  List, Option, String, [], arith, inl, inr, lookup, lookup-insert_self, not, refl, some, subst,
  true, ℕ, ◌&&◌, ◌+◌, ◌==◌, ◌∙◌, ◌∷◌, ◌≡◌, ◌⊎◌,
}
use dev_ops_pipeline_orchest.Store.State.{
  State, aborted, await_approval, is_terminal, succeeded, state_eq,
}
use dev_ops_pipeline_orchest.Store.Rows.{
  AuditEntry, Deployment, OutboxEntry, Result, err, ok, resource,
}
use dev_ops_pipeline_orchest.Store.Transactions.{Env, Store}
use dev_ops_pipeline_orchest.Store.Deployments.{moved, transition}
use dev_ops_pipeline_orchest.Engine.Rollback.{Plan, Refusal}
use dev_ops_pipeline_orchest.Engine.Failure.{
  after_deploy_back, execute_rollback, finish_rollback, follow, give_up, handle_failure, is_blocked,
  is_inconclusive, plan_and_roll_back, respond,
}
use dev_ops_pipeline_orchest.Engine.World.{
  Cause, DeployReply, Event, M, Machine, Outcome, World, ask, call, continue_with, deploy_refused,
  deployed_as, done, emit, entered, failure, ignore, modify, of_result, the_dep, with_state, ◌>>=◌,
  ◌>>◌,
}
use dev_ops_pipeline_orchest.Config.Schema.{AppEnv}
use dev_ops_pipeline_orchest.Engine.World.Triples.{
  Ends, Triple, Triple-always, Triple-bind, Triple-defer, Triple-fail, Triple-if, Triple-if_some,
  Triple-on_error, Triple-weaken,
}
use dev_ops_pipeline_orchest.Engine.Events.{persist, transition_and_notify}
use dev_ops_pipeline_orchest.Engine.Gates.{needs_approval}
use dev_ops_pipeline_orchest.Engine.Run.{
  abort, all_steps, enter, next_step, run, run_steps, under_lease,
}
use dev_ops_pipeline_orchest.Engine.Run.Calls.{calls_frame}
use dev_ops_pipeline_orchest.Engine.Within.Run.{Within-release}
use dev_ops_pipeline_orchest.Engine.World.Frames.{Within-ignore}
use dev_ops_pipeline_orchest.Store.Deployments.Outcomes.{transition_all_or_nothing}
use dev_ops_pipeline_orchest.Store.Leases.{release_lease}
use dev_ops_pipeline_orchest.Store.Progress.Promises.{terminal_for_good}

-- the row of the machine's deployment is stored in a state
unfoldable pub StoredAs : State → Machine → Type 0
StoredAs s m = (d : Deployment) × (lookup m.dep.id m.store.deployments ≡ some d) × (d.state ≡ s)

abbrev Any : Machine → Type 0
Any m = Unit {0}

abbrev Never : Machine → Type 0
Never m = ⊥

some_way : {A : Type 0} (x : M A) → Triple Any x Any Any
some_way x = Triple-always x (λ m h. tt) (λ m h. tt)

module _ (w : World) where
  -- failures never return
  give_up-Never :
      (to : State) (make : M Event) (c : Cause) → Triple Any (give_up w to make c) Never Any
  unfolding give_up
  give_up-Never to make c = Triple-bind _ _ (some_way _) (λ u. Triple-fail _ (λ m h. tt))

  finish_rollback-Never : (p : Plan) (c : Cause) → Triple Any (finish_rollback w p c) Never Any
  unfolding finish_rollback
  finish_rollback-Never p c = Triple-bind _ _ (some_way _) λ u.
      Triple-bind _ _ (some_way _) λ ev. Triple-bind _ _ (some_way _) λ v. Triple-fail _ (λ m h. tt)

  after_deploy_back-Never :
      (cfg : AppEnv) (p : Plan) (c : Cause) (r : DeployReply)
      → Triple Any (after_deploy_back w cfg p c r) Never Any
  unfolding after_deploy_back
  after_deploy_back-Never cfg p c (deploy_refused output) = give_up-Never _ _ _
  after_deploy_back-Never cfg p c (deployed_as handle output) =
      Triple-bind _ _ (some_way _)
        λ r. Triple-if (refused r) _ _ (give_up-Never _ _ _) (finish_rollback-Never p c)

  execute_rollback-Never :
      (cfg : AppEnv) (p : Plan) (c : Cause) → Triple Any (execute_rollback w cfg p c) Never Any
  unfolding execute_rollback
  execute_rollback-Never cfg p c = Triple-bind _ _ (some_way _) λ ev.
      Triple-bind _ _ (some_way _) λ u.
        Triple-on_error _ _ _ (some_way _) (λ x. give_up-Never _ _ _)
          (λ v. Triple-bind _ _ (some_way _) (after_deploy_back-Never cfg p c))

  follow-Never :
      (cfg : AppEnv) (c : Cause) (p : Plan ⊎ Refusal) → Triple Any (follow w cfg c p) Never Any
  unfolding follow
  follow-Never cfg c (inl p) = execute_rollback-Never cfg p c
  follow-Never cfg c (inr r) = give_up-Never _ _ _

  respond-Never :
      (cfg : AppEnv) (c : Cause) (d : Deployment) → Triple Any (respond w cfg c d) Never Any
  unfolding respond plan_and_roll_back
  respond-Never cfg c d = Triple-if d.is_rollback _ _ (give_up-Never _ _ _) (
      Triple-if (is_blocked c) _ _ (give_up-Never _ _ _) (
        Triple-if (is_inconclusive c) _ _ (give_up-Never _ _ _) (
          Triple-if (not cfg.rollback.automatic) _ _ (give_up-Never _ _ _)
            (Triple-bind _ _ (some_way _) λ x. Triple-bind _ _ (some_way _) (follow-Never cfg c)))))

  handle_failure-Never : (cfg : AppEnv) (c : Cause) → Triple Any (handle_failure w cfg c) Never Any
  unfolding handle_failure
  handle_failure-Never cfg c =
      Triple-bind _ _ (some_way _)
        λ u. Triple-bind _ _ (some_way _) λ v. Triple-bind _ _ (some_way _) (respond-Never cfg c)

  handle_failure-Stored :
      (cfg : AppEnv) (c : Cause) → Triple Any (handle_failure w cfg c) (StoredAs succeeded) Any
  handle_failure-Stored cfg c =
      Triple-weaken _ (handle_failure-Never cfg c) (λ m h. h) (λ m h. absurd h) (λ m h. h)

  -- a transition that succeeds has stored the state
  transition-stores :
      (env : Env) (id : String) (fence : ℕ) (from to : State) (entry : Option AuditEntry)
      (notes : List OutboxEntry) (s : Store)
      → let r = transition w.platform env id fence from to entry notes s in
        r.0 ≡ ok tt → (d : Deployment) × (lookup id r.1.deployments ≡ some d) × (d.state ≡ to)
  unfolding moved
  transition-stores env id fence from to entry notes s e =
      let q = (transition_all_or_nothing w.platform env id fence from to entry notes s).0 e in
      (moved env to q.before, rw q.written (lookup-insert_self id _ s.deployments), refl)

  persist-StoredAs :
      (to : State) (reason payload : String)
      → Triple Any (persist w to reason payload) (StoredAs to) Any
  unfolding persist call ◌>>=◌ the_dep ask modify emit Ends StoredAs moved
  persist-StoredAs to reason payload = record {
    at = λ m h. onward m _ (transition-stores _ _ _ _ _ _ _ _);
  }
    where
      onward :
          (m : Machine) (r : Result (Unit {0}) × Store)
          → (r.0 ≡ ok tt
              → (d : Deployment) × (lookup m.dep.id r.1.deployments ≡ some d) × (d.state ≡ to))
          → Ends (StoredAs to) Any (
              continue_with
                (λ u. modify (with_state to) >> emit (entered to))
                (of_result r.0, record m { store = r.1; clock = m.clock + 1 + 1 }))
      onward m (ok u, s) k = k refl
      onward m (err e, s) k = tt

  notify-StoredAs :
      (s : State) (ev : Event) → Triple Any (transition_and_notify w s ev) (StoredAs s) Any
  unfolding transition_and_notify
  notify-StoredAs s ev =
      Triple-if_some _ _ _ (persist-StoredAs s ev.reason) (Triple-fail _ (λ m h. h))

  enter-StoredAs : (s : State) → Triple Any (enter w s) (StoredAs s) Any
  unfolding enter
  enter-StoredAs s = Triple-bind _ _ (some_way _) (notify-StoredAs s)

  next_step-StoredAs :
      (cfg : AppEnv) (s : State) (x y : M (Unit {0}))
      → Triple Any y (StoredAs succeeded) Any
      → Triple Any (next_step w cfg s x y) (StoredAs succeeded) Any
  unfolding next_step
  next_step-StoredAs cfg s x y hy =
      Triple-if (s == await_approval && not (needs_approval cfg.gates)) _ _ hy (
        Triple-on_error _ _ _ (some_way _) (handle_failure-Stored cfg) (λ u.
          Triple-on_error _ _ _ (some_way x)
            (λ c. Triple-bind _ _ (some_way _) (handle_failure-Stored cfg)) (λ v. hy)))

  run_steps-StoredAs :
      (cfg : AppEnv) (steps : List (State × M (Unit {0})))
      → Triple Any (run_steps w cfg steps) (StoredAs succeeded) Any
  unfolding run_steps
  run_steps-StoredAs cfg [] = enter-StoredAs succeeded
  run_steps-StoredAs cfg ((s, x) ∷ steps) =
      next_step-StoredAs cfg s x _ (run_steps-StoredAs cfg steps)

  -- a deployment that has ended stays as it is while the lease is released
  release-StoredAs :
      (s : State)
      → is_terminal s ≡ true
      → (r holder : String) (m : Machine) → StoredAs s m
      → StoredAs s (ignore (call w (λ env. release_lease w.platform env r holder)) m).1
  unfolding StoredAs is_terminal ignore call calls_frame
  release-StoredAs s end r holder m (d, e, q) =
      let (d', e', q') =
        terminal_for_good w.platform m.dep.id d
          ((Within-ignore w _ (Within-release w (calls_frame w) (λ g h. tt) r holder)).at m) e
          (rw q end) in
      (d', e', q' ∙ q)

  run-StoredAs : (id : String) → Triple Any (run w id) (StoredAs succeeded) Any
  unfolding run under_lease is_terminal
  run-StoredAs id = Triple-bind _ _ (some_way _) λ d. Triple-bind _ _ (some_way _) λ u.
      Triple-if_some _ _ _
        (λ cfg. Triple-bind _ _ (some_way _) λ fence. Triple-bind _ _ (some_way _) λ v.
          Triple-defer _ _ (release-StoredAs succeeded refl (resource d) d.id) (λ m h. tt)
            (run_steps-StoredAs cfg (all_steps w cfg)))
        (Triple-fail _ (λ m h. tt))

  abort-StoredAs : (id actor : String) → Triple Any (abort w id actor) (StoredAs aborted) Any
  unfolding abort under_lease is_terminal
  abort-StoredAs id actor = Triple-bind _ _ (some_way _) λ d. Triple-bind _ _ (some_way _) λ u.
      Triple-bind _ _ (some_way _) λ v. Triple-bind _ _ (some_way _) λ x.
        Triple-bind _ _ (some_way _) λ fence. Triple-bind _ _ (some_way _) λ y.
          Triple-defer _ _ (release-StoredAs aborted refl (resource d) d.id) (λ m h. tt)
            (Triple-bind _ _ (some_way _) (λ ev. notify-StoredAs aborted _))

  -- what holds where an operation has returned
  returned :
      (id : String) (s : State) (r : Outcome (Unit {0}) × Machine)
      → r.0 ≡ done tt
      → Ends (StoredAs s) Any r
      → Ends (IsOf id) Any r
      → (d : Deployment) × (lookup id r.1.store.deployments ≡ some d) × (d.state ≡ s)
  unfolding Ends StoredAs
  returned id s (done u, n) e (d, k, q) same =
      (d, subst (λ j. lookup j n.store.deployments ≡ some d) same k, q)
  returned id s (failure c, n) e k same = absurd (ground arith)

  -- A run that reports success for a deployment that the store holds under its id has left the
  -- stored row of that deployment as SUCCEEDED, whatever row was in memory before.
  pub run_success_is_stored :
      (id : String) (d0 : Deployment) (m : Machine)
      → lookup id m.store.deployments ≡ some d0
      → d0.id ≡ id
      → (run w id m).0 ≡ done tt
      → (d : Deployment) × (lookup id (run w id m).1.store.deployments ≡ some d)
        × (d.state ≡ succeeded)
  run_success_is_stored id d0 m e named h =
      returned id succeeded (run w id m) h ((run-StoredAs id).at m tt)
        ((run-IsOf w id).at m (d0, e, named))

  -- An abort that reports success of a deployment that the store holds under its id has left the
  -- stored row of that deployment as ABORTED, whatever row was in memory before.
  pub abort_success_is_stored :
      (id actor : String) (d0 : Deployment) (m : Machine)
      → lookup id m.store.deployments ≡ some d0
      → d0.id ≡ id
      → (abort w id actor m).0 ≡ done tt
      → (d : Deployment) × (lookup id (abort w id actor m).1.store.deployments ≡ some d)
        × (d.state ≡ aborted)
  abort_success_is_stored id actor d0 m e named h =
      returned id aborted (abort w id actor m) h ((abort-StoredAs id actor).at m tt)
        ((abort-IsOf w id actor).at m (d0, e, named))
