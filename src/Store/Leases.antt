-- ===== src/Store/Leases.antt =====
-- internal/store/store.go: leases, with their expiry and their fence tokens.
pub mod Exclusion
use dev_ops_pipeline_orchest.Prelude.{
  Bool, String, [], false, if◌then◌else◌, insert, lookup, ltb, none, not, some, ℕ, ◌&&◌, ◌++◌, ◌+◌,
  ◌==◌, ◌||◌, ◌∷◌, string_eq, nat_eq,
}
use dev_ops_pipeline_orchest.Store.Rows.{
  AuditEntry, Lease, Result, Time, err, expired, lease, lease_held, lease_release, not_found, ok,
  stale_fence,
}
use dev_ops_pipeline_orchest.Store.Index.{Index, drop_lease}
use dev_ops_pipeline_orchest.Store.Transactions.{
  Env, Platform, Store, add, begin, commit_tx, with_value,
}
use dev_ops_pipeline_orchest.Store.Audit.{add_audit}

-- a lease that somebody holds and that has not run out
unfoldable pub live : Lease → Time → Bool
unfolding expired
live l now = not (l.holder == "") && not (expired l now)

-- Store.LeaseHeld
unfoldable pub lease_held? : Env → String → Store → Bool
unfolding live
lease_held? env r s = elim (lookup r s.leases) [ none ↦ false | some cur ↦ live cur env.now ]

-- Store.Lease
unfoldable pub get_lease : String → Store → Result Lease
get_lease r s = elim (lookup r s.leases) [ none ↦ err not_found | some cur ↦ ok cur ]

-- Store.checkFenceLocked
unfoldable pub check_fence : Env → String → String → ℕ → Store → Result (Unit {0})
unfolding expired
check_fence env r holder fence s = elim (lookup r s.leases) [
  | none ↦ err stale_fence
  | some cur ↦
      if ltb fence cur.fence_token
      then err stale_fence
      else if not (cur.holder == holder)
      then err stale_fence
      else if expired cur env.now
      then err stale_fence
      else ok tt
]

-- what BreakLease does to the index: the holder is dropped whoever it is
unfoldable pub clear_lease : String → Time → Index → Index
clear_lease r at i = elim (lookup r i.leases) [
  | none ↦ i
  | some cur ↦ record i { leases = insert r (record cur { expires_at = at; holder = "" }) i.leases }
]

abbrev pub new_lease : Env → String → String → String → ℕ → Store → Lease
new_lease env r holder node fence s = record {
  resource = r;
  holder = holder;
  owner_node = node;
  acquired_at = env.now;
  expires_at = env.now + s.lease_ttl;
  fence_token = fence;
}

abbrev pub renewed : Env → Lease → Store → Lease
renewed env cur s = record cur { expires_at = env.now + s.lease_ttl }

abbrev pub broken_entry : Env → String → String → Lease → AuditEntry
broken_entry env r actor cur = record {
  id = 0;
  at = env.now;
  actor = actor;
  action = "lease.broken";
  resource = r;
  detail = ("previous_holder", cur.holder) ∷ [];
  prev_hash = "";
  hash = "";
}

module _ (p : Platform) where
  -- the part of AcquireLease behind the guards
  unfoldable pub take_lease : Env → String → String → String → ℕ → Store → Result ℕ × Store
  take_lease env r holder node fence s =
      let l = new_lease env r holder node fence s in
      with_value fence
        (commit_tx p env (add (lease l) (λ i. record i { leases = insert r l i.leases }) begin) s)

  -- Store.AcquireLease
  unfoldable pub acquire_lease : Env → String → String → String → Store → Result ℕ × Store
  unfolding live
  acquire_lease env r holder node s = elim (lookup r s.leases) [
    | none ↦ take_lease env r holder node 1 s
    | some cur ↦
        if live cur env.now
        then if cur.holder == holder
          then (ok cur.fence_token, s)
          else (err (lease_held cur.holder cur.expires_at), s)
        else take_lease env r holder node (cur.fence_token + 1) s
  ]

  unfoldable pub write_renewal : Env → String → Lease → Store → Result (Unit {0}) × Store
  write_renewal env r cur s =
      commit_tx p env
        (add (lease (renewed env cur s))
          (λ i. record i { leases = insert r (renewed env cur s) i.leases }) begin)
        s

  -- Store.RenewLease
  unfoldable pub renew_lease : Env → String → String → ℕ → Store → Result (Unit {0}) × Store
  unfolding expired
  renew_lease env r holder fence s = elim (lookup r s.leases) [
    | none ↦ (err stale_fence, s)
    | some cur ↦
        if not (cur.holder == holder) || not (cur.fence_token == fence)
        then (err stale_fence, s)
        else if expired cur env.now
        then (err stale_fence, s)
        else write_renewal env r cur s
  ]

  unfoldable pub write_release : Env → String → Lease → Store → Result (Unit {0}) × Store
  write_release env r cur s =
      commit_tx p env
        (add (lease_release (record cur { expires_at = env.now })) (drop_lease r cur.holder env.now)
          begin)
        s

  -- Store.ReleaseLease: the row's holder is the caller where it is written
  unfoldable pub release_lease : Env → String → String → Store → Result (Unit {0}) × Store
  release_lease env r holder s = elim (lookup r s.leases) [
    | none ↦ (ok tt, s)
    | some cur ↦ if not (cur.holder == holder) then (ok tt, s) else write_release env r cur s
  ]

  -- the closure that clears the lease is appended behind the audit entry's
  unfoldable pub write_break : Env → String → String → Lease → Store → Result (Unit {0}) × Store
  unfolding clear_lease
  write_break env r actor cur s =
      let tx = add_audit p s (broken_entry env r actor cur) (record {
        recs = lease_release (record cur { expires_at = env.now }) ∷ [];
        apply_after = [];
      }) in
      commit_tx p env (record tx { apply_after = tx.apply_after ++ clear_lease r env.now ∷ [] }) s

  -- Store.BreakLease
  unfoldable pub break_lease : Env → String → String → Store → Result (Unit {0}) × Store
  break_lease env r actor s = elim (lookup r s.leases) [
    | none ↦ (err not_found, s)
    | some cur ↦ write_break env r actor cur s
  ]
