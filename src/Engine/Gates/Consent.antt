-- ===== src/Engine/Gates/Consent.antt =====
-- What an approval has to be, and that a wait for one ends.
use dev_ops_pipeline_orchest.Engine.World.Frames.{met}
use dev_ops_pipeline_orchest.Prelude.{
  Bool, Bool-cases, Option-cases, String, arith, eq_iff, false, if◌then◌else◌, inl, inr, lookup,
  ltb, not, refl, some, suc, true, zero, ℕ, ◌+◌, ◌<◌, ◌||◌, ◌↔◌, ◌≡◌, ◌≢◌, ◌≤◌, string_eq,
}
use dev_ops_pipeline_orchest.Store.Rows.{Deployment, Time}
use dev_ops_pipeline_orchest.Config.Schema.{Config, Gate, Identity, can, env_policy_for}
use dev_ops_pipeline_orchest.Engine.Gates.{
  approval_is_valid, may_approve, poll, role_fits, wait_for_approval,
}
use dev_ops_pipeline_orchest.Engine.World.{
  M, Machine, World, ask, blocked_deploy, call, context_ended, fail, failure, guard, now_time,
  out_of_polls, pure, the_dep, ◌>>=◌, ◌>>◌,
}

-- The four conditions on whoever approves, and when.
pub record Consent (c : Config) (d : Deployment) (g : Gate) (user : String) (at : Time)
    : Type 0 where
  pub identity : Identity
  pub known : lookup user c.identities ≡ some identity
  pub enabled : identity.disabled ≡ false
  pub permitted : can c (some identity) "deploy:approve" d.environment ≡ true
  pub in_role : role_fits identity g.roles ≡ true
  pub by_peer :
      (g.require_peer || (env_policy_for c d.environment).require_peer_approval) ≡ true
      → d.triggered_by ≢ user
  pub in_time : at ≤ d.created_at + g.ttl

-- An approval counts exactly if the user is known and not disabled, may approve deploys to the
-- environment, holds one of the gate's roles where it names any, is not who asked for the deploy
-- where a peer is required, and approved before the request expired.
pub approval_is_valid-Consent :
    (c : Config) (d : Deployment) (g : Gate) (user : String) (at : Time)
    → (approval_is_valid c d g user at ≡ true) ↔ Consent c d g user at
unfolding approval_is_valid may_approve
approval_is_valid-Consent c d g user at = (only, enough)
  where
    only : approval_is_valid c d g user at ≡ true → Consent c d g user at
    only h = elim (Option-cases (lookup user c.identities)) [
      | inl e ↦ absurd (ground arith)
      | inr (u, e) ↦ record {
        identity = u;
        known = e;
        enabled = ground arith;
        permitted = ground arith;
        in_role = ground arith;
        by_peer = λ p q. ground (arith, eq_iff d.triggered_by user);
        in_time = ground arith;
      }
    ]

    may : (h : Consent c d g user at) → may_approve c d g user at h.identity ≡ true
    may h =
        elim (Bool-cases
          (g.require_peer || (env_policy_for c d.environment).require_peer_approval)) [
            | inl p ↦
                let q = h.by_peer p in
                ground
                  (arith, eq_iff d.triggered_by user, h.in_time, h.enabled, h.permitted, h.in_role)
            | inr p ↦ ground (arith, h.in_time, h.enabled, h.permitted, h.in_role)
          ]

    enough : Consent c d g user at → approval_is_valid c d g user at ≡ true
    enough h = rw (h.known, approval_is_valid) (may h)

module _ (w : World) where
  abbrev deadline : Machine → Gate → Time
  deadline m g = m.dep.created_at + g.ttl

  -- what is known of a round of the wait behind which the polls have run out
  record Again (m : Machine) (g : Gate) (next : M (Unit {0})) : Type 0 where
    later : Machine
    ticks : later.clock ≡ m.clock + 1 + 1 + 1
    same_row : later.dep ≡ m.dep
    early : (w.env (m.clock + 1)).now < deadline m g
    ran_out : (next later).0 ≡ failure out_of_polls

  poll-Again :
      (g : Gate) (next : M (Unit {0})) (m : Machine)
      → (poll w g next m).0 ≡ failure out_of_polls
      → Again m g next
  unfolding poll call ask the_dep guard pure fail ◌>>=◌
  poll-Again g next m = answered _
    where
      read : Machine
      read = record m { store = met w m; clock = m.clock + 1 }

      timed : Machine
      timed = record read { clock = read.clock + 1 }

      seen : Machine
      seen = record timed { clock = timed.clock + 1 }

      go_on_if :
          (b : Bool)
          → ((guard (not b) context_ended >> next) seen).0 ≡ failure out_of_polls
          → (w.env (m.clock + 1)).now < deadline m g
          → Again m g next
      go_on_if true e h = absurd (ground arith)
      go_on_if false e h = record {
        later = seen;
        ticks = refl;
        same_row = refl;
        early = h;
        ran_out = e;
      }

      in_time_if :
          (b : Bool)
          → ltb (w.env (m.clock + 1)).now (deadline m g) ≡ b
          → ((guard b blocked_deploy
                >> (ask w.cancelled >>= λ stopped. guard (not stopped) context_ended >> next))
              timed).0
            ≡ failure out_of_polls
          → Again m g next
      in_time_if true q e = go_on_if (w.cancelled timed.clock) e (ground arith)
      in_time_if false q e = absurd (ground arith)

      answered :
          (b : Bool)
          → ((if b
                then pure tt
                else (now_time w >>= λ now.
                    guard (ltb now (deadline m g)) blocked_deploy
                    >> (ask w.cancelled >>= λ stopped. guard (not stopped) context_ended >> next)))
              read).0
            ≡ failure out_of_polls
          → Again m g next
      answered true e = absurd (ground arith)
      answered false e = in_time_if _ refl e

  -- A wait for an approval ends by itself on a clock that goes on by at least a nanosecond with each
  -- call: polls that are one more than the deadline's nanoseconds are enough, so that it ends with an
  -- approval, with the expiry of the request, or with a failure of the store or of the context.
  pub wait_ends :
      (n : ℕ) (g : Gate) (m : Machine)
      → ((k : ℕ) → k ≤ (w.env k).now)
      → m.dep.created_at + g.ttl ≤ m.clock + n
      → (wait_for_approval w (suc n) g m).0 ≢ failure out_of_polls
  unfolding wait_for_approval
  wait_ends zero g m adv h e =
      let again = poll-Again g (wait_for_approval w 0 g) m e in
      omega (arith, again.early, adv (m.clock + 1))
  wait_ends (suc n) g m adv h e =
      let again = poll-Again g (wait_for_approval w (suc n) g) m e in
      wait_ends n g again.later adv (rw (again.ticks, again.same_row) (omega arith)) again.ran_out
