-- ===== src/Store/Tables/Approvals.antt =====
-- One user approves a deployment once.
use dev_ops_pipeline_orchest.Prelude.{
  Bool-cases, List, Option-cases, String, [], arith, eq_iff, false, if◌then◌else◌, inl, inr, insert,
  lookup, lookup-insert, refl, subst, true, ◌++◌, ◌==◌, ◌∷◌, ◌≡◌, string_eq, nat_eq,
}
use dev_ops_pipeline_orchest.Store.Rows.{Approval, AuditEntry, Deployment, Result, approval, ok}
use dev_ops_pipeline_orchest.Store.Index.{slice}
use dev_ops_pipeline_orchest.Store.Transactions.{Env, Platform, Store, run_after}
use dev_ops_pipeline_orchest.Store.Transactions.Outcomes.{
  Ended, commit_tx-Ended, landed, not_written,
}
use dev_ops_pipeline_orchest.Store.Audit.{append_entry, chained}
use dev_ops_pipeline_orchest.Store.Tables.{
  add_approval, approval_entry, grant, has_approved, record_approval, write_approval,
}

-- No user stands in the list twice.
abbrev pub Once : List Approval → Type 0
Once [] = Unit {0}
Once (a ∷ xs) = (has_approved a.user xs ≡ false) × Once xs

has_approved-append :
    (u : String) (a : Approval) (xs : List Approval)
    → has_approved u (xs ++ a ∷ []) ≡ (if has_approved u xs then true else a.user == u)
unfolding has_approved
has_approved-append u a [] = ground arith
has_approved-append u a (x ∷ xs) = ground (arith, has_approved-append u a xs)

Once-append :
    (a : Approval) (xs : List Approval)
    → has_approved a.user xs ≡ false
    → Once xs
    → Once (xs ++ a ∷ [])
unfolding has_approved
Once-append a [] h o = (refl, tt)
Once-append a (x ∷ xs) h o = (
  ground (arith, has_approved-append x.user a xs, o.0, eq_iff a.user x.user, eq_iff x.user a.user),
  Once-append a xs (ground arith) o.1,
)

abbrev pub AllOnce : Store → Type 0
AllOnce s = (id : String) → Once (slice id s.approvals)

module _ (p : Platform) (env : Env) where
  add_approval-AllOnce :
      (a : Approval) (s : Store) (id : String)
      → has_approved a.user (slice a.deployment_id s.approvals) ≡ false
      → AllOnce s
      → Once (
          slice id
            (insert a.deployment_id (slice a.deployment_id s.approvals ++ a ∷ []) s.approvals))
  add_approval-AllOnce a s id h o =
      let new = slice a.deployment_id s.approvals ++ a ∷ [] in
      elim (Bool-cases (a.deployment_id == id)) [
        | inl b ↦
            subst Once (ground (arith, lookup-insert a.deployment_id id new s.approvals))
              (Once-append a (slice a.deployment_id s.approvals) h (o a.deployment_id))
        | inr b ↦
            subst Once (ground (arith, lookup-insert a.deployment_id id new s.approvals)) (o id)
      ]

  write_approval-AllOnce :
      (a : Approval) (d : Deployment) (s : Store)
      → has_approved a.user (slice a.deployment_id s.approvals) ≡ false
      → AllOnce s
      → AllOnce (write_approval p env a d s).1
  unfolding write_approval run_after
  write_approval-AllOnce a d s h o =
      let e = chained p s (approval a ∷ []) (approval_entry a d) in
      go (commit_tx-Ended p env _ _ (append_entry e ∷ add_approval a ∷ []) s)
    where
      go :
          {e : AuditEntry} {r : Result (Unit {0}) × Store}
          → Ended p (append_entry e ∷ add_approval a ∷ []) s r
          → AllOnce r.1
      go (landed j) id = add_approval-AllOnce a s id h o
      go (not_written x j) id = o id

  grant-AllOnce :
      (a : Approval) (s : Store)
      → has_approved a.user (slice a.deployment_id s.approvals) ≡ false
      → AllOnce s
      → AllOnce (grant p env a s).1
  unfolding grant
  grant-AllOnce a s h o = elim (Option-cases (lookup a.deployment_id s.deployments)) [
    | inl q ↦ rw (q, grant) o
    | inr (d, q) ↦ rw (q, grant) (write_approval-AllOnce a d s h o)
  ]

  -- If no user stands twice among the approvals of any deployment, then this is so after a further
  -- approval, by whom and on what disk ever; and an approval by a user who has approved that
  -- deployment writes nothing.
  pub record_approval-AllOnce :
      (a : Approval) (s : Store)
      → AllOnce s
      → AllOnce (record_approval p env a s).1
        × (has_approved a.user (slice a.deployment_id s.approvals) ≡ true
            → record_approval p env a s ≡ (ok tt, s))
  unfolding record_approval
  record_approval-AllOnce a s o =
      elim (Bool-cases (has_approved a.user (slice a.deployment_id s.approvals))) [
        | inl b ↦ rw b (o, λ q. refl)
        | inr b ↦ rw b (elim (Bool-cases (a.at == 0)) [
          | inl z ↦
              rw z (grant-AllOnce (record a { at = env.now }) s b o, λ q. absurd (ground arith))
          | inr z ↦ rw z (grant-AllOnce a s b o, λ q. absurd (ground arith))
        ])
      ]
