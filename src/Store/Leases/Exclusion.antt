-- ===== src/Store/Leases/Exclusion.antt =====
-- What an acquired or a renewed lease gives to its holder, and takes from everybody else.
use dev_ops_pipeline_orchest.Prelude.{
  Bool-cases, List, Option-cases, String, [], arith, eq_iff, false, inl, inr, insert, lookup,
  lookup-insert_self, refl, some, subst, true, ℕ, ◌+◌, ◌<◌, ◌==◌, ◌∷◌, ◌≡◌, ◌≤◌, string_eq, nat_eq,
}
use dev_ops_pipeline_orchest.Store.Rows.{Lease, Result, expired, lease, ok}
use dev_ops_pipeline_orchest.Store.Transactions.{Env, Platform, Store, run_after, with_value}
use dev_ops_pipeline_orchest.Store.Transactions.Outcomes.{
  Ended, commit_tx-Ended, landed, not_written,
}
use dev_ops_pipeline_orchest.Store.Journal.{Journal}
use dev_ops_pipeline_orchest.Store.Index.{Index}
use dev_ops_pipeline_orchest.Store.Leases.{
  acquire_lease, check_fence, lease_held?, live, new_lease, take_lease,
}
use dev_ops_pipeline_orchest.Store.Progress.Parts.{fence_of}
use dev_ops_pipeline_orchest.Store.Operations.{Calls}
use dev_ops_pipeline_orchest.Store.Progress.Promises.{Calls-Advances}

-- Only `holder` passes the fence check, and it does with the token `fence`, at the time of `env`.
pub record Owns (env : Env) (r holder : String) (fence : ℕ) (s : Store) : Type 0 where
  pub passes : check_fence env r holder fence s ≡ ok tt
  pub alone :
      (at : Env) (someone : String) (g : ℕ)
      → check_fence at r someone g s ≡ ok tt
      → (someone ≡ holder) × (fence ≤ g)

Owns-row :
    (env : Env) (r holder : String) (l : Lease) (s : Store)
    → lookup r s.leases ≡ some l
    → l.holder ≡ holder
    → expired l env.now ≡ false
    → Owns env r holder l.fence_token s
unfolding check_fence
Owns-row env r holder l s q same fresh = record {
  passes = ground (arith, eq_iff l.holder holder);
  alone = λ at someone g h. (ground (arith, eq_iff l.holder someone), ground arith);
}

module _ (p : Platform) (env : Env) where
  take_lease-Owns :
      (r holder node : String) (n f : ℕ) (s : Store)
      → 0 < s.lease_ttl
      → (take_lease p env r holder node n s).0 ≡ ok f
      → (n ≡ f) × Owns env r holder f (take_lease p env r holder node n s).1
  unfolding take_lease run_after expired
  take_lease-Owns r holder node n f s pos e = go (commit_tx-Ended p env (lease l) [] fs s) e
    where
      l : Lease
      l = new_lease env r holder node n s

      fs : List (Index → Index)
      fs = (λ i. record i { leases = insert r l i.leases }) ∷ []

      after : Journal → Store
      after j = record s { index = run_after fs s.index; journal = j }

      go :
          {t : Result (Unit {0}) × Store}
          → Ended p fs s t
          → (with_value {A = ℕ} n t).0 ≡ ok f
          → (n ≡ f) × Owns env r holder f (with_value {A = ℕ} n t).1
      go (landed j) q =
          let same : n ≡ f = ground arith in
          (
            same,
            subst (λ x. Owns env r holder x (after j)) same
                (Owns-row env r holder l (after j) (lookup-insert_self r l s.leases) refl
                  (ground arith)),
          )
      go (not_written y j) q = absurd (ground arith)

  take_lease-stored :
      (r holder node : String) (n f : ℕ) (s : Store)
      → (take_lease p env r holder node n s).0 ≡ ok f
      → fence_of r (take_lease p env r holder node n s).1.leases ≡ f
  unfolding take_lease run_after fence_of
  take_lease-stored r holder node n f s e = go (commit_tx-Ended p env (lease l) [] fs s) e
    where
      l : Lease
      l = new_lease env r holder node n s

      fs : List (Index → Index)
      fs = (λ i. record i { leases = insert r l i.leases }) ∷ []

      go :
          {t : Result (Unit {0}) × Store}
          → Ended p fs s t
          → (with_value {A = ℕ} n t).0 ≡ ok f
          → fence_of r (with_value {A = ℕ} n t).1.leases ≡ f
      go (landed j) q = ground (arith, lookup-insert_self r l s.leases)
      go (not_written y j) q = absurd (ground arith)

  -- the token that an acquisition returns is the stored one
  acquire_lease-stored :
      (r holder node : String) (f : ℕ) (s : Store)
      → (acquire_lease p env r holder node s).0 ≡ ok f
      → fence_of r (acquire_lease p env r holder node s).1.leases ≡ f
  unfolding acquire_lease fence_of
  acquire_lease-stored r holder node f s e = elim (Option-cases (lookup r s.leases)) [
    | inl q ↦
        rw (q, acquire_lease) (take_lease-stored r holder node 1 f s (rw (q, acquire_lease) at e))
    | inr (x, q) ↦
        let e' = rw (q, acquire_lease) at e in
        elim (Bool-cases (live x env.now)) [
          | inl b ↦ elim (Bool-cases (x.holder == holder)) [
            | inl c ↦ rw (q, acquire_lease) (rw b (rw c (ground arith)))
            | inr c ↦ absurd (ground arith)
          ]
          | inr b ↦
              rw (q, acquire_lease)
                (rw b (take_lease-stored r holder node (x.fence_token + 1) f s (ground arith)))
        ]
  ]

  acquire_lease-now :
      (r holder node : String) (f : ℕ) (s : Store)
      → 0 < s.lease_ttl
      → (acquire_lease p env r holder node s).0 ≡ ok f
      → Owns env r holder f (acquire_lease p env r holder node s).1
        × ((cur : Lease)
            → lookup r s.leases ≡ some cur
            → live cur env.now ≡ true
            → cur.holder ≡ holder)
        × (lease_held? env r s ≡ false → fence_of r s.leases < f)
  unfolding acquire_lease lease_held? fence_of live
  acquire_lease-now r holder node f s pos e = elim (Option-cases (lookup r s.leases)) [
    | inl q ↦
        let (same, owns) = take_lease-Owns r holder node 1 f s pos (rw (q, acquire_lease) at e) in
        (rw (q, acquire_lease) owns, λ cur k l. absurd (ground arith), λ free. ground arith)
    | inr (x, q) ↦
        let e' = rw (q, acquire_lease) at e in
        elim (Bool-cases (live x env.now)) [
          | inl b ↦ elim (Bool-cases (x.holder == holder)) [
            | inl c ↦
                let same : x.holder ≡ holder = (eq_iff x.holder holder).0 c in
                let tok : x.fence_token ≡ f = ground arith in
                (
                  rw (q, acquire_lease)
                      (rw b (
                        rw c (
                          subst (λ n. Owns env r holder n s) tok
                            (Owns-row env r holder x s q same (ground arith))))),
                  λ cur k l. ground arith,
                  λ free. absurd (ground arith),
                )
            | inr c ↦ absurd (ground arith)
          ]
          | inr b ↦
              let (same, owns) =
                take_lease-Owns r holder node (x.fence_token + 1) f s pos (ground arith) in
              (
                rw (q, acquire_lease) (rw b owns),
                λ cur k l. absurd (ground arith),
                λ free. ground arith,
              )
        ]
  ]

module _ (p : Platform) where
  -- On a store whose leases last, an acquisition that succeeds leaves the caller with a token that
  -- passes the fence check now, and nobody else passes it from then on until the lease changes, at
  -- any time. Nobody else held the lease before; and unless it was held, the token is greater than
  -- each one that an earlier acquisition of the resource returned, whatever calls came between.
  pub acquire_lease-Owns :
      (env : Env) (r holder node : String) (f : ℕ) (s : Store)
      → 0 < s.lease_ttl
      → (acquire_lease p env r holder node s).0 ≡ ok f
      → Owns env r holder f (acquire_lease p env r holder node s).1
        × ((cur : Lease)
            → lookup r s.leases ≡ some cur
            → live cur env.now ≡ true
            → cur.holder ≡ holder)
        × ((env' : Env) (holder' node' : String) (g : ℕ) (s' : Store)
            → (acquire_lease p env' r holder' node' s').0 ≡ ok g
            → Calls p (acquire_lease p env' r holder' node' s').1 s
            → lease_held? env r s ≡ false
            → g < f)
  acquire_lease-Owns env r holder node f s pos e =
      let (owns, held, more) = acquire_lease-now p env r holder node f s pos e in
      (
        owns,
        held,
        λ env' holder' node' g s' e' run free.
            let given = acquire_lease-stored p env' r holder' node' g s' e' in
            let kept = (Calls-Advances p run).fences r in
            let new = more free in omega (arith, given, kept, new),
      )
