-- ===== src/Store/Durability/LeaseSteps.antt =====
-- The lease operations keep the store sound.
use dev_ops_pipeline_orchest.Prelude.{
  Option-cases, String, [], ap, arith, eq_iff, inl, inr, insert, lookup, lookup-insert, refl, some,
  ℕ, ◌∙◌, ◌∷◌, ◌≡◌, string_eq, nat_eq,
}
use dev_ops_pipeline_orchest.Store.Rows.{AuditEntry, Lease, Time, lease, lease_release, ok}
use dev_ops_pipeline_orchest.Store.Index.{Index, apply_record, drop_lease}
use dev_ops_pipeline_orchest.Store.Transactions.{
  Env, Platform, Store, add, begin, commit_tx, run_after,
}
use dev_ops_pipeline_orchest.Store.Journal.{apply_all, durable}
use dev_ops_pipeline_orchest.Store.Leases.{
  acquire_lease, break_lease, broken_entry, clear_lease, release_lease, renew_lease, renewed,
  take_lease, write_break, write_release, write_renewal,
}
use dev_ops_pipeline_orchest.Store.Durability.{Agrees, with_seq}
use dev_ops_pipeline_orchest.Store.Durability.Sound.{
  IsConsistent, IsSound, Leaves, Leaves-same, Leaves-value, audit-IsConsistent, commit_tx-IsSound,
  leaves_rules,
}
use dev_ops_pipeline_orchest.Store.Audit.{append_entry, chained}

-- A lease stored under its own resource keeps the index consistent.
set_lease-IsConsistent :
    (i : Index) (r : String) (l : Lease)
    → l.resource ≡ r
    → IsConsistent i
    → IsConsistent (record i { leases = insert r l i.leases })
set_lease-IsConsistent i r l e h = record {
  row_id = h.row_id;
  row_key = h.row_key;
  lease_row = λ k x q. ground (arith, lookup-insert r k l i.leases, h.lease_row k x, eq_iff r k);
  ids = h.ids;
}

clear_lease-IsConsistent :
    (r : String) (at : Time) (i : Index) → IsConsistent i → IsConsistent (clear_lease r at i)
unfolding clear_lease
clear_lease-IsConsistent r at i h = elim (Option-cases (lookup r i.leases)) [
  | inl e ↦ rw (e, clear_lease) h
  | inr (cur, e) ↦ rw (e, clear_lease) (set_lease-IsConsistent i r _ (h.lease_row r cur e) h)
]

-- Where the holder is the lease's own, dropping and clearing are the same.
drop-clear :
    (r : String) (at : Time) (i : Index) (cur : Lease)
    → lookup r i.leases ≡ some cur
    → drop_lease r cur.holder at i ≡ clear_lease r at i
unfolding drop_lease clear_lease
drop-clear r at i cur e =
    rw (e, drop_lease, clear_lease) (ground (arith, eq_iff cur.holder cur.holder))

-- Replaying a break, which also appends an audit entry, does what the store does.
break-clear :
    (r : String) (at : Time) (i : Index) (a : AuditEntry) (q : ℕ)
    → append_entry a (with_seq q (clear_lease r at i))
      ≡ with_seq q (clear_lease r at (append_entry a i))
unfolding clear_lease
break-clear r at i a q = ground arith

drop-with_seq :
    (r holder : String) (at : Time) (q : ℕ) (i : Index)
    → drop_lease r holder at (with_seq q i) ≡ with_seq q (drop_lease r holder at i)
unfolding drop_lease
drop-with_seq r holder at q i = ground arith

outbox_seq-clear :
    (r : String) (at : Time) (i : Index) → (clear_lease r at i).outbox_seq ≡ i.outbox_seq
unfolding clear_lease
outbox_seq-clear r at i = ground arith

-- Replaying the record of a release does what clearing the row does.
release-clear :
    (r : String) (at : Time) (i : Index) (cur : Lease) (q : ℕ)
    → lookup r i.leases ≡ some cur
    → cur.resource ≡ r
    → drop_lease cur.resource cur.holder at (with_seq q i) ≡ with_seq q (clear_lease r at i)
release-clear r at i cur q e f =
    rw f (drop-with_seq r cur.holder at q i ∙ ap (with_seq q) (drop-clear r at i cur e))

module _ (p : Platform) (env : Env) (taken : env.disk ≡ durable) where
  lease-Agrees :
      (i : Index) (l : Lease)
      → Agrees p.codec
          (add (lease l) (λ i. record i { leases = insert l.resource l i.leases }) begin)
          i
  unfolding apply_all apply_record run_after
  lease-Agrees i l = record { plain = (tt, tt); agrees = λ q h. (q, h, refl) }

  put_lease-IsSound :
      (r : String) (l : Lease) (s : Store)
      → l.resource ≡ r
      → IsSound p s
      → Leaves p
          (commit_tx p env (add (lease l) (λ i. record i { leases = insert r l i.leases }) begin) s)
  put_lease-IsSound r l s e h = rw (← e) (
      commit_tx-IsSound p env _ _ s taken h (lease-Agrees s.index l)
        (unfold run_after in set_lease-IsConsistent s.index l.resource l refl h.consistent))

  take_lease-IsSound :
      (r holder node : String) (fence : ℕ) (s : Store)
      → IsSound p s
      → Leaves p (take_lease p env r holder node fence s)
  unfolding take_lease
  take_lease-IsSound r holder node fence s h =
      Leaves-value p fence _ (put_lease-IsSound r _ s refl h)

  pub acquire_lease-IsSound :
      (r holder node : String) (s : Store)
      → IsSound p s
      → Leaves p (acquire_lease p env r holder node s)
  unfolding acquire_lease
  acquire_lease-IsSound r holder node s h = elim (Option-cases (lookup r s.leases)) [
    | inl e ↦ rw (e, acquire_lease) (take_lease-IsSound r holder node 1 s h)
    | inr (cur, e) ↦ rw (e, acquire_lease) (search (leaves_rules, take_lease-IsSound))
  ]

  write_renewal-IsSound :
      (r : String) (cur : Lease) (s : Store)
      → lookup r s.leases ≡ some cur
      → IsSound p s
      → Leaves p (write_renewal p env r cur s)
  unfolding write_renewal
  write_renewal-IsSound r cur s e h =
      put_lease-IsSound r (renewed env cur s) s (h.consistent.lease_row r cur e) h

  pub renew_lease-IsSound :
      (r holder : String) (fence : ℕ) (s : Store)
      → IsSound p s
      → Leaves p (renew_lease p env r holder fence s)
  unfolding renew_lease
  renew_lease-IsSound r holder fence s h = elim (Option-cases (lookup r s.leases)) [
    | inl e ↦ rw (e, renew_lease) (Leaves-same p _ s h)
    | inr (cur, e) ↦ rw (e, renew_lease) (search (leaves_rules, write_renewal-IsSound))
  ]

  write_release-IsSound :
      (r : String) (cur : Lease) (s : Store)
      → lookup r s.leases ≡ some cur
      → IsSound p s
      → Leaves p (write_release p env r cur s)
  unfolding write_release apply_all apply_record run_after
  write_release-IsSound r cur s e h =
      commit_tx-IsSound p env _ _ s taken h
        (record {
          plain = (tt, tt);
          agrees = λ q le. rw (drop-clear r env.now s.index cur e) (
            q,
            rw outbox_seq-clear le,
            ap ok (release-clear r env.now s.index cur q e (h.consistent.lease_row r cur e)),
          );
        })
        (rw (drop-clear r env.now s.index cur e)
          (clear_lease-IsConsistent r env.now s.index h.consistent))

  pub release_lease-IsSound :
      (r holder : String) (s : Store) → IsSound p s → Leaves p (release_lease p env r holder s)
  unfolding release_lease
  release_lease-IsSound r holder s h = elim (Option-cases (lookup r s.leases)) [
    | inl e ↦ rw (e, release_lease) (Leaves-same p _ s h)
    | inr (cur, e) ↦ rw (e, release_lease) (search (leaves_rules, write_release-IsSound))
  ]

  write_break-IsSound :
      (r actor : String) (cur : Lease) (s : Store)
      → lookup r s.leases ≡ some cur
      → IsSound p s
      → Leaves p (write_break p env r actor cur s)
  unfolding write_break apply_all apply_record run_after
  write_break-IsSound r actor cur s e h =
      commit_tx-IsSound p env _ _ s taken h
        (record {
          plain = (tt, (tt, tt));
          agrees = λ q le.
              let a =
                chained p s (lease_release (record cur { expires_at = env.now }) ∷ [])
                  (broken_entry env r actor cur) in
              (
                q,
                rw outbox_seq-clear le,
                ap (λ i. ok (append_entry a i))
                      (release-clear r env.now s.index cur q e (h.consistent.lease_row r cur e))
                    ∙ ap ok (break-clear r env.now s.index a q),
              );
        })
        (clear_lease-IsConsistent r env.now _ (audit-IsConsistent _ s.index h.consistent))

  pub break_lease-IsSound :
      (r actor : String) (s : Store) → IsSound p s → Leaves p (break_lease p env r actor s)
  unfolding break_lease
  break_lease-IsSound r actor s h = elim (Option-cases (lookup r s.leases)) [
    | inl e ↦ rw (e, break_lease) (Leaves-same p _ s h)
    | inr (cur, e) ↦ rw (e, break_lease) (write_break-IsSound r actor cur s e h)
  ]
