-- ===== src/Store/Durability/RowSteps.antt =====
-- Creating, moving and updating a deployment keep the store sound.
use dev_ops_pipeline_orchest.Prelude.{
  Bool-cases, Option-cases, String, [], ap, arith, eq_iff, inl, inr, insert, insert-lookup, lookup,
  lookup-insert, lookup-insert_self, none, some, true, ◌==◌, ◌∷◌, ◌≡◌, ◌⊎◌, string_eq, nat_eq,
}
use dev_ops_pipeline_orchest.Store.State.{state_eq}
use dev_ops_pipeline_orchest.Store.Rows.{Deployment, deployment, ok}
use dev_ops_pipeline_orchest.Store.Index.{Index, apply_record, put_deployment}
use dev_ops_pipeline_orchest.Store.Deployments.{
  add_deployment, create_deployment, create_fresh, created_entry, created_row, insert_row,
  set_deployment,
}
use dev_ops_pipeline_orchest.Store.Durability.Sound.{
  IsConsistent, IsSound, KeyOf, Leaves, Leaves-same, Leaves-value, audit-IsConsistent,
  commit_tx-IsSound,
}
use dev_ops_pipeline_orchest.Store.Audit.{append_entry, chained}
use dev_ops_pipeline_orchest.Store.Durability.{with_seq}
use dev_ops_pipeline_orchest.Store.Journal.{apply_all, durable}
use dev_ops_pipeline_orchest.Store.Transactions.{Env, Platform, Store, run_after}

-- A row that replaces one with the same id and key.
pub set_row-IsConsistent :
    (i : Index) (id : String) (d : Deployment)
    → d.id ≡ id
    → KeyOf d id i.by_idem_key
    → IsConsistent i
    → IsConsistent (record i { deployments = insert id d i.deployments })
set_row-IsConsistent i id d e k h = record {
  row_id = λ j x q. ground (arith, lookup-insert id j d i.deployments, h.row_id j x, eq_iff id j);
  row_key = λ j x q. elim (Bool-cases (id == j)) [
    | inl same ↦
        let here : id ≡ j = (eq_iff id j).0 same in
        let val : d ≡ x = ground (arith, lookup-insert id j d i.deployments) in rw (← val, ← here) k
    | inr apart ↦ h.row_key j x (ground (arith, lookup-insert id j d i.deployments))
  ];
  lease_row = h.lease_row;
  ids = h.ids;
}

-- A row whose key is recorded already is put by replacing it alone.
pub put_deployment-set :
    (i : Index) (d cur : Deployment)
    → lookup d.id i.deployments ≡ some cur
    → KeyOf d d.id i.by_idem_key
    → put_deployment d i ≡ set_deployment d i
unfolding put_deployment
put_deployment-set i d cur e (inl k) = rw (e, put_deployment) (rw k)
put_deployment-set i d cur e (inr k) =
    rw (e, put_deployment) (ground (arith, insert-lookup d.idempotency_key d.id i.by_idem_key))

put_deployment-add :
    (i : Index) (d : Deployment)
    → lookup d.id i.deployments ≡ none
    → put_deployment d i ≡ add_deployment d i
unfolding put_deployment add_deployment
put_deployment-add i d e = rw (e, put_deployment)

abbrev pub IsFresh : Deployment → Index → Type 0
IsFresh d i = ((d.idempotency_key == "") ≡ true) ⊎ (lookup d.idempotency_key i.by_idem_key ≡ none)

-- A key that is not recorded belongs to no row, so recording it moves no other row's key.
key_apart :
    (i : Index) (d x : Deployment) (j : String)
    → IsFresh d i
    → KeyOf x j i.by_idem_key
    → KeyOf x j (add_deployment d i).by_idem_key
unfolding add_deployment
key_apart i d x j f (inl k) = inl k
key_apart i d x j (inl e) (inr k) = inr (rw e k)
key_apart i d x j (inr e) (inr k) = elim (Bool-cases (d.idempotency_key == "")) [
  | inl q ↦ inr (rw q k)
  | inr q ↦ inr (
      rw q (
        ground (
          arith,
          lookup-insert d.idempotency_key x.idempotency_key d.id i.by_idem_key,
          eq_iff d.idempotency_key x.idempotency_key,
        )))
]

key_own : (i : Index) (d : Deployment) → KeyOf d d.id (add_deployment d i).by_idem_key
unfolding add_deployment
key_own i d = elim (Bool-cases (d.idempotency_key == "")) [
  | inl q ↦ inl q
  | inr q ↦ inr (rw q (lookup-insert_self d.idempotency_key d.id i.by_idem_key))
]

add_deployment-IsConsistent :
    (i : Index) (d : Deployment) → IsFresh d i → IsConsistent i → IsConsistent (add_deployment d i)
unfolding add_deployment
add_deployment-IsConsistent i d f h = record {
  row_id =
      λ j x q. ground (arith, lookup-insert d.id j d i.deployments, h.row_id j x, eq_iff d.id j);
  row_key = λ j x q. elim (Bool-cases (d.id == j)) [
    | inl same ↦
        let here : d.id ≡ j = (eq_iff d.id j).0 same in
        let val : d ≡ x = ground (arith, lookup-insert d.id j d i.deployments) in
        rw (← val, ← here) (key_own i d)
    | inr apart ↦
        key_apart i d x j f (h.row_key j x (ground (arith, lookup-insert d.id j d i.deployments)))
  ];
  lease_row = h.lease_row;
  ids = h.ids;
}

module _ (p : Platform) (env : Env) (taken : env.disk ≡ durable) where
  insert_row-IsSound :
      (d : Deployment) (s : Store)
      → lookup d.id s.deployments ≡ none
      → IsFresh d s.index
      → IsSound p s
      → Leaves p (insert_row p env d s)
  unfolding insert_row apply_all apply_record run_after add_deployment
  insert_row-IsSound d s e f h =
      let d' = created_row env d in
      let a = chained p s (deployment d' ∷ []) (created_entry env d') in
      Leaves-value p _ _ (
        commit_tx-IsSound p env _ _ s taken h
          (record {
            plain = (tt, (tt, tt));
            agrees = λ q le. (
              q,
              le,
              ap (λ i. ok (append_entry a i)) (put_deployment-add (with_seq q s.index) d' e),
            );
          })
          (add_deployment-IsConsistent (append_entry a s.index) d' f
            (audit-IsConsistent a s.index h.consistent)))

  create_fresh-IsSound :
      (d : Deployment) (s : Store)
      → IsFresh d s.index
      → IsSound p s
      → Leaves p (create_fresh p env d s)
  unfolding create_fresh
  create_fresh-IsSound d s f h = elim (Option-cases (lookup d.id s.deployments)) [
    | inl e ↦ rw (e, create_fresh) (insert_row-IsSound d s e f h)
    | inr (x, e) ↦ rw (e, create_fresh) (Leaves-same p _ s h)
  ]

  pub create_deployment-IsSound :
      (d : Deployment) (s : Store) → IsSound p s → Leaves p (create_deployment p env d s)
  unfolding create_deployment
  create_deployment-IsSound d s h = elim (Bool-cases (d.idempotency_key == "")) [
    | inl q ↦ rw q (create_fresh-IsSound d s (inl q) h)
    | inr q ↦ elim (Option-cases (lookup d.idempotency_key s.by_idem_key)) [
      | inl e ↦ rw q (rw (e, create_deployment) (create_fresh-IsSound d s (inr e) h))
      | inr (id, e) ↦ rw q (rw (e, create_deployment) (Leaves-same p _ s h))
    ]
  ]
