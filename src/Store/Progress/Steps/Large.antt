-- ===== src/Store/Progress/Steps/Large.antt =====
-- Leases and deployments.
use dev_ops_pipeline_orchest.Prelude.{
  Bool-cases, Option-cases, String, [], arith, inl, inr, insert, lookup, not, refl, some, ℕ, ◌+◌,
  ◌==◌, ◌||◌, ◌∷◌, ◌≡◌, ◌≤◌, string_eq, nat_eq,
}
use dev_ops_pipeline_orchest.Store.State.{state_eq}
use dev_ops_pipeline_orchest.Store.Rows.{Lease, Time, expired, lease_release}
use dev_ops_pipeline_orchest.Store.Index.{Index, drop_lease}
use dev_ops_pipeline_orchest.Store.Transactions.{Env, Platform, Store, run_after}
use dev_ops_pipeline_orchest.Store.Leases.{
  acquire_lease, break_lease, broken_entry, clear_lease, live, release_lease, renew_lease, renewed,
  take_lease, write_break, write_release, write_renewal,
}
use dev_ops_pipeline_orchest.Store.Progress.{Advances}
use dev_ops_pipeline_orchest.Store.Progress.Parts.{
  Fences-insert, Keys-refl, Log-refl, Notes-refl, Rows-refl, fence_of,
}
use dev_ops_pipeline_orchest.Store.Progress.Steps.{
  Advances-refl, Advances-trans, Goes, Goes-if, Goes-same, Goes-value, commit_tx-Goes, logged,
}

module _ (p : Platform) (env : Env) where
  lease_only :
      (i : Index) (r : String) (l : Lease)
      → fence_of r i.leases ≤ l.fence_token
      → Advances p i (record i { leases = insert r l i.leases })
  lease_only i r l h = record {
    fences = Fences-insert r l i.leases h;
    rows = Rows-refl i.deployments;
    keys = Keys-refl i.by_idem_key;
    log = Log-refl p (i.audit, i.audit_head);
    notes = Notes-refl i.outbox;
  }

  take_lease-Goes :
      (r holder node : String) (n : ℕ) (s : Store)
      → fence_of r s.leases ≤ n
      → Goes p s.index (take_lease p env r holder node n s)
  unfolding take_lease run_after
  take_lease-Goes r holder node n s h =
      Goes-value p n s.index _
        (commit_tx-Goes p env _ _ s.index s (Advances-refl p s.index) (lease_only s.index r _ h))

  pub acquire_lease-Goes :
      (r holder node : String) (s : Store) → Goes p s.index (acquire_lease p env r holder node s)
  unfolding acquire_lease fence_of
  acquire_lease-Goes r holder node s = elim (Option-cases (lookup r s.leases)) [
    | inl q ↦ rw (q, acquire_lease) (take_lease-Goes r holder node 1 s (ground arith))
    | inr (cur, q) ↦
        rw (q, acquire_lease)
          (Goes-if p (live cur env.now) s.index _ _
            (Goes-if p (cur.holder == holder) s.index _ _ (Goes-same p _ s) (Goes-same p _ s))
            (take_lease-Goes r holder node (cur.fence_token + 1) s (ground arith)))
  ]

  write_renewal-Goes :
      (r : String) (cur : Lease) (s : Store)
      → lookup r s.leases ≡ some cur
      → Goes p s.index (write_renewal p env r cur s)
  unfolding write_renewal run_after fence_of
  write_renewal-Goes r cur s q =
      commit_tx-Goes p env _ _ s.index s (Advances-refl p s.index)
        (lease_only s.index r (renewed env cur s) (ground arith))

  pub renew_lease-Goes :
      (r holder : String) (n : ℕ) (s : Store) → Goes p s.index (renew_lease p env r holder n s)
  unfolding renew_lease
  renew_lease-Goes r holder n s = elim (Option-cases (lookup r s.leases)) [
    | inl q ↦ rw (q, renew_lease) (Goes-same p _ s)
    | inr (cur, q) ↦
        rw (q, renew_lease)
          (Goes-if p (not (cur.holder == holder) || not (cur.fence_token == n)) s.index _ _
            (Goes-same p _ s)
            (Goes-if p (expired cur env.now) s.index _ _ (Goes-same p _ s)
              (write_renewal-Goes r cur s q)))
  ]

  -- A row that is written back with its token.
  same_token :
      (i : Index) (r : String) (cur l : Lease)
      → lookup r i.leases ≡ some cur
      → l.fence_token ≡ cur.fence_token
      → Advances p i (record i { leases = insert r l i.leases })
  unfolding fence_of
  same_token i r cur l q e = lease_only i r l (ground arith)

  clear_lease-Advances : (r : String) (at : Time) (i : Index) → Advances p i (clear_lease r at i)
  unfolding clear_lease
  clear_lease-Advances r at i = elim (Option-cases (lookup r i.leases)) [
    | inl q ↦ rw (q, clear_lease) (Advances-refl p i)
    | inr (cur, q) ↦ rw (q, clear_lease) (same_token i r cur _ q refl)
  ]

  drop_lease-Advances :
      (r holder : String) (at : Time) (i : Index) → Advances p i (drop_lease r holder at i)
  unfolding drop_lease
  drop_lease-Advances r holder at i = elim (Option-cases (lookup r i.leases)) [
    | inl q ↦ rw (q, drop_lease) (Advances-refl p i)
    | inr (cur, q) ↦
        rw (q, drop_lease)
          (elim (Bool-cases (cur.holder == holder)) [
            | inl b ↦ rw b (same_token i r cur _ q refl)
            | inr b ↦ rw b (Advances-refl p i)
          ])
  ]

  write_release-Goes :
      (r : String) (cur : Lease) (s : Store) → Goes p s.index (write_release p env r cur s)
  unfolding write_release run_after
  write_release-Goes r cur s =
      commit_tx-Goes p env _ _ s.index s (Advances-refl p s.index)
        (drop_lease-Advances r cur.holder env.now s.index)

  pub release_lease-Goes :
      (r holder : String) (s : Store) → Goes p s.index (release_lease p env r holder s)
  unfolding release_lease
  release_lease-Goes r holder s = elim (Option-cases (lookup r s.leases)) [
    | inl q ↦ rw (q, release_lease) (Goes-same p _ s)
    | inr (cur, q) ↦
        rw (q, release_lease)
          (Goes-if p (not (cur.holder == holder)) s.index _ _ (Goes-same p _ s)
            (write_release-Goes r cur s))
  ]

  write_break-Goes :
      (r actor : String) (cur : Lease) (s : Store)
      → Goes p s.index (write_break p env r actor cur s)
  unfolding write_break run_after
  write_break-Goes r actor cur s = commit_tx-Goes p env _ _ s.index s (Advances-refl p s.index) (
      Advances-trans p _ _ _
        (logged p s (lease_release (record cur { expires_at = env.now }) ∷ [])
          (broken_entry env r actor cur) s.approvals s.freezes refl)
        (clear_lease-Advances r env.now _))

  pub break_lease-Goes :
      (r actor : String) (s : Store) → Goes p s.index (break_lease p env r actor s)
  unfolding break_lease
  break_lease-Goes r actor s = elim (Option-cases (lookup r s.leases)) [
    | inl q ↦ rw (q, break_lease) (Goes-same p _ s)
    | inr (cur, q) ↦ rw (q, break_lease) (write_break-Goes r actor cur s)
  ]
