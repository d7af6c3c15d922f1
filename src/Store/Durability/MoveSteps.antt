-- ===== src/Store/Durability/MoveSteps.antt =====
-- Moving and updating a deployment keep the store sound.
use dev_ops_pipeline_orchest.Prelude.{
  All, List, Option, Option-cases, String, [], ap, arith, inl, inr, insert, lookup, none, not, refl,
  some, subst, sym, true, ℕ, ◌++◌, ◌==◌, ◌∙◌, ◌∷◌, ◌≡◌, ◌≤◌, ◌⊎◌, string_eq, nat_eq,
}
use dev_ops_pipeline_orchest.Store.State.{State, state_eq}
use dev_ops_pipeline_orchest.Store.Rows.{
  AuditEntry, Deployment, OutboxEntry, Payload, Result, audit, deployment, err, ok,
}
use dev_ops_pipeline_orchest.Store.Index.{Index, apply_record}
use dev_ops_pipeline_orchest.Store.Transactions.{Env, Platform, Store, commit_tx, run_after}
use dev_ops_pipeline_orchest.Store.Audit.{append_entry, chained}
use dev_ops_pipeline_orchest.Store.Journal.{Codec, apply_all, durable}
use dev_ops_pipeline_orchest.Store.Durability.{Agrees, with_seq}
use dev_ops_pipeline_orchest.Store.Durability.Sound.{
  IsConsistent, IsSound, KeyOf, Leaves, Leaves-if, Leaves-same, audit-IsConsistent,
  commit_tx-IsSound,
}
use dev_ops_pipeline_orchest.Store.Durability.NoteSteps.{
  Follow, Follow-numbered, Rising-notes, apply_all-notes, at_seq, enqueue_all_lem, le-top_id,
  note_after, note_recs, numbered, run_after-append, run_after-notes, top_id, with_notes,
}
use dev_ops_pipeline_orchest.Store.Journal.Recovery.{IsPlain, apply_all-append}
use dev_ops_pipeline_orchest.Store.Deployments.{
  entry_for, moved, transition, transition_check, update_deployment, write_transition, write_update,
}
use dev_ops_pipeline_orchest.Store.Durability.RowSteps.{put_deployment-set, set_row-IsConsistent}
use dev_ops_pipeline_orchest.Store.Durability.NoteOps.{at_seq-IsSound}

-- The records and the index changes that an optional audit entry adds.
abbrev entry_recs : Option AuditEntry → List Payload
entry_recs none = []
entry_recs (some a) = audit a ∷ []

abbrev entry_after : Option AuditEntry → List (Index → Index)
entry_after none = []
entry_after (some a) = append_entry a ∷ []

abbrev pub with_entry : Option AuditEntry → Index → Index
with_entry none i = i
with_entry (some a) i = append_entry a i

abbrev pub put_row : String → Deployment → Index → Index
put_row id d i = record i { deployments = insert id d i.deployments }

note_recs-IsPlain : (qs : List OutboxEntry) → All IsPlain (note_recs qs)
note_recs-IsPlain [] = tt
note_recs-IsPlain (q ∷ qs) = (tt, note_recs-IsPlain qs)

-- A transaction that writes a row, an optional entry and notes.
module _ (c : Codec) (id : String) (d : Deployment) (a : Option AuditEntry)
    (qs : List OutboxEntry) where
  unfoldable pub move_recs : List Payload
  move_recs = (deployment d ∷ entry_recs a) ++ note_recs qs

  pub move_after : List (Index → Index)
  move_after = (entry_after a ++ note_after qs) ++ put_row id d ∷ []

  pub run_move :
      (i : Index) → run_after move_after i ≡ put_row id d (with_notes qs (with_entry a i))
  unfolding move_after run_after
  run_move i =
      run_after-append (entry_after a ++ note_after qs) (put_row id d ∷ []) i
      ∙ ap (put_row id d) (run_after-append (entry_after a) (note_after qs) i ∙ go a)
    where
      go :
          (o : Option AuditEntry)
          → run_after (note_after qs) (run_after (entry_after o) i) ≡ with_notes qs (with_entry o i)
      go none = run_after-notes qs i
      go (some x) = run_after-notes qs (append_entry x i)

  move_IsPlain : All IsPlain move_recs
  unfolding move_recs
  move_IsPlain = go a
    where
      go : (o : Option AuditEntry) → All IsPlain ((deployment d ∷ entry_recs o) ++ note_recs qs)
      go none = (tt, note_recs-IsPlain qs)
      go (some x) = (tt, (tt, note_recs-IsPlain qs))

  move_head :
      (i : Index) (cur : Deployment) (q : ℕ) (o : Option AuditEntry)
      → d.id ≡ id
      → lookup id i.deployments ≡ some cur
      → KeyOf d id i.by_idem_key
      → apply_all c apply_record (deployment d ∷ entry_recs o) (with_seq q i)
        ≡ ok (with_seq q (put_row id d (with_entry o i)))
  unfolding apply_all apply_record
  move_head i cur q o same e k =
      ap (apply_all c apply_record (entry_recs o)) (
        put_deployment-set (with_seq q i) d cur (rw same e) (rw same k)
        ∙ ap (λ j. put_row j d (with_seq q i)) same)
      ∙ go o
    where
      go :
          (o : Option AuditEntry)
          → apply_all c apply_record (entry_recs o) (put_row id d (with_seq q i))
            ≡ ok (with_seq q (put_row id d (with_entry o i)))
      go none = refl
      go (some x) = refl

  seq-with_entry : (i : Index) (o : Option AuditEntry) → (with_entry o i).outbox_seq ≡ i.outbox_seq
  seq-with_entry i none = refl
  seq-with_entry i (some x) = refl

  move-Agrees :
      (i : Index) (cur : Deployment) (n : ℕ)
      → d.id ≡ id
      → lookup id i.deployments ≡ some cur
      → KeyOf d id i.by_idem_key
      → Follow n qs
      → i.outbox_seq ≡ top_id n qs
      → Agrees c (record { recs = move_recs; apply_after = move_after }) i
  unfolding move_recs
  move-Agrees i cur n same e k f top = record { plain = move_IsPlain; agrees = agreed }
    where
      agreed :
          (q : ℕ)
          → q ≤ i.outbox_seq
          → (q' : ℕ) × (q' ≤ (run_after move_after i).outbox_seq)
            × (apply_all c apply_record move_recs (with_seq q i)
                ≡ ok (with_seq q' (run_after move_after i)))
      agreed q le =
          let (q', le', notes) =
            apply_all-notes c n q qs (put_row id d (with_entry a i)) (omega arith) f in
          (
            q',
            subst (λ t. q' ≤ t)
                (sym top
                  ∙ sym (seq-with_entry i a)
                  ∙ ap (λ (t : Index). t.outbox_seq) (sym (run_move i)))
                le',
            apply_all-append c apply_record (deployment d ∷ entry_recs a) (note_recs qs) _ _
                  (move_head i cur q a same e k)
                ∙ notes
                ∙ ap (λ t. ok (with_seq q' t)) (sym (run_move i)),
          )

-- What `write_transition` commits.
module _ (p : Platform) (env : Env) where
  abbrev pub chain_entry : Deployment → Deployment → Option AuditEntry → Store → Option AuditEntry
  chain_entry d next none s = none
  chain_entry d next (some x) s = some (chained p s (deployment next ∷ []) (entry_for env d x))

  pub write_transition_lem :
      (id : String) (to : State) (d : Deployment) (entry : Option AuditEntry)
      (notes : List OutboxEntry) (s : Store)
      → let qs = numbered env s.outbox_seq notes in
        let next = moved env to d in
        let a = chain_entry d next entry s in
        write_transition p env id to d entry notes s
        ≡ commit_tx p env
            (record {
              recs = move_recs p.codec id next a qs;
              apply_after = move_after p.codec id next a qs;
            })
            (at_seq (top_id s.outbox_seq qs) s)
  unfolding write_transition move_recs move_after
  write_transition_lem id to d none notes s =
      let next = moved env to d in
      ap
        (λ r.
          commit_tx p env (record r.1 { apply_after = r.1.apply_after ++ put_row id next ∷ [] })
            r.0)
        (enqueue_all_lem env notes s (record { recs = deployment next ∷ []; apply_after = [] }))
  write_transition_lem id to d (some x) notes s =
      let next = moved env to d in
      let a = chained p s (deployment next ∷ []) (entry_for env d x) in
      ap
        (λ r.
          commit_tx p env (record r.1 { apply_after = r.1.apply_after ++ put_row id next ∷ [] })
            r.0)
        (enqueue_all_lem env notes s
          (record { recs = deployment next ∷ audit a ∷ []; apply_after = append_entry a ∷ [] }))

module _ (p : Platform) (env : Env) (taken : env.disk ≡ durable) where
  with_entry-IsConsistent :
      (o : Option AuditEntry) (qs : List OutboxEntry) (id : String) (x : Deployment) (i : Index)
      → x.id ≡ id
      → KeyOf x id i.by_idem_key
      → IsConsistent (with_notes qs i)
      → IsConsistent (put_row id x (with_notes qs (with_entry o i)))
  with_entry-IsConsistent none qs id x i e k h = set_row-IsConsistent _ id x e k h
  with_entry-IsConsistent (some a) qs id x i e k h =
      set_row-IsConsistent _ id x e k (audit-IsConsistent a (with_notes qs i) h)

  notes-IsConsistent :
      (notes : List OutboxEntry) (s : Store)
      → IsConsistent s.index
      → let qs = numbered env s.outbox_seq notes in
        IsConsistent (with_notes qs (at_seq (top_id s.outbox_seq qs) s).index)
  notes-IsConsistent notes s h = record {
    row_id = h.row_id;
    row_key = h.row_key;
    lease_row = h.lease_row;
    ids = Rising-notes 0 s.outbox_seq s.outbox _ h.ids (Follow-numbered env s.outbox_seq notes);
  }

  write_transition-IsSound :
      (id : String) (to : State) (d : Deployment) (entry : Option AuditEntry)
      (notes : List OutboxEntry) (s : Store)
      → lookup id s.deployments ≡ some d
      → IsSound p s
      → Leaves p (write_transition p env id to d entry notes s)
  unfolding moved
  write_transition-IsSound id to d entry notes s e h =
      let n = s.outbox_seq in
      let qs = numbered env n notes in
      let next = moved env to d in
      let a = chain_entry p env d next entry s in
      let s' = at_seq (top_id n qs) s in
      let follow = Follow-numbered env n notes in
      let same = h.consistent.row_id id d e in
      let key = h.consistent.row_key id d e in
      rw (write_transition_lem p env id to d entry notes s) (
        commit_tx-IsSound p env _ _ s' taken (at_seq-IsSound p _ s (le-top_id n qs follow) h)
          (move-Agrees p.codec id next a qs s'.index d n same e key follow refl)
          (subst IsConsistent (sym (run_move p.codec id next a qs s'.index)) (
            with_entry-IsConsistent a qs id next s'.index same key
              (notes-IsConsistent notes s h.consistent))))

  transition_check-row :
      (id : String) (fence : ℕ) (from to : State) (s : Store) (d : Deployment)
      → transition_check p env id fence from to s ≡ ok d
      → lookup id s.deployments ≡ some d
  unfolding transition_check
  transition_check-row id fence from to s d e = ground arith

  pub transition-IsSound :
      (id : String) (fence : ℕ) (from to : State) (entry : Option AuditEntry)
      (notes : List OutboxEntry) (s : Store)
      → IsSound p s
      → Leaves p (transition p env id fence from to entry notes s)
  unfolding transition
  transition-IsSound id fence from to entry notes s h =
      go (transition_check p env id fence from to s) refl
    where
      go :
          (r : Result Deployment)
          → transition_check p env id fence from to s ≡ r
          → Leaves {A = Unit {0}} p
              (elim r [ err e ↦ (err e, s) | ok d ↦ write_transition p env id to d entry notes s ])
      go (err x) e = Leaves-same p (err x) s h
      go (ok d) e =
          write_transition-IsSound id to d entry notes s
            (transition_check-row id fence from to s d e) h

  write_update-IsSound :
      (d cur : Deployment) (s : Store)
      → lookup d.id s.deployments ≡ some cur
      → cur.idempotency_key ≡ d.idempotency_key
      → IsSound p s
      → Leaves p (write_update p env d s)
  unfolding write_update apply_all apply_record run_after
  write_update-IsSound d cur s e k h =
      let next = record d { updated_at = env.now } in
      let key : KeyOf d d.id s.by_idem_key =
        subst (λ x. ((x == "") ≡ true) ⊎ (lookup x s.by_idem_key ≡ some d.id)) k
          (h.consistent.row_key d.id cur e) in
      commit_tx-IsSound p env _ _ s taken h
        (record {
          plain = (tt, tt);
          agrees = λ q le. (q, le, ap ok (put_deployment-set (with_seq q s.index) next cur e key));
        })
        (set_row-IsConsistent s.index d.id next refl key h.consistent)

  -- The row that the caller passes has the idempotency key of the stored one.
  pub update_deployment-IsSound :
      (d : Deployment) (s : Store)
      → ((cur : Deployment)
          → lookup d.id s.deployments ≡ some cur
          → cur.idempotency_key ≡ d.idempotency_key)
      → IsSound p s
      → Leaves p (update_deployment p env d s)
  unfolding update_deployment
  update_deployment-IsSound d s k h = elim (Option-cases (lookup d.id s.deployments)) [
    | inl q ↦ rw (q, update_deployment) (Leaves-same p _ s h)
    | inr (x, q) ↦
        rw (q, update_deployment)
          (Leaves-if p (not (x.state == d.state)) _ _ (Leaves-same p _ s h)
            (write_update-IsSound d x s q (k x q) h))
  ]
