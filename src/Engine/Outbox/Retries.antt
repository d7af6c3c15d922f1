-- ===== src/Engine/Outbox/Retries.antt =====
-- A note that is not taken stays in the outbox to be tried again.
use dev_ops_pipeline_orchest.Prelude.{
  Bool-cases, List, Option-cases, String, [], arith, false, inl, inr, refl, some, subst, sym, ℕ,
  ◌==◌, ◌∙◌, ◌∷◌, ◌≡◌, ◌≢◌, ◌⊎◌, string_eq, nat_eq,
}
use dev_ops_pipeline_orchest.Store.Rows.{OutboxEntry, Result, delivered, outbox_state}
use dev_ops_pipeline_orchest.Store.Index.{Index}
use dev_ops_pipeline_orchest.Store.Transactions.{Env, Platform, Store, run_after}
use dev_ops_pipeline_orchest.Store.Transactions.Outcomes.{
  Ended, commit_tx-Ended, landed, not_written,
}
use dev_ops_pipeline_orchest.Store.Outbox.{
  deliver, due_outbox, fail_delivery, find_entry, mark_delivered, mark_failed, set_entry,
  update_outbox, write_state,
}
use dev_ops_pipeline_orchest.Store.Progress.Parts.{find_entry-set_entry}
use dev_ops_pipeline_orchest.Store.Durability.NoteOps.{find_entry-id}
use dev_ops_pipeline_orchest.Engine.Outbox.{
  Reply, Round, accepted, batch_size, drain, drain_all, refused, settle, stops, unconfigured,
}

-- An update of the note `id` leaves the note `j`, or it is `j` and was updated.
abbrev Touched : ℕ → ℕ → (OutboxEntry → OutboxEntry) → Store → Store → Type 0
Touched id j f s s' =
    (find_entry j s'.outbox ≡ find_entry j s.outbox)
    ⊎ ((j ≡ id)
        × (e : OutboxEntry) × (find_entry j s.outbox ≡ some e)
        × (find_entry j s'.outbox ≡ some (f e)))

module _ (p : Platform) where
  write_state-Touched :
      (env : Env) (id j : ℕ) (f : OutboxEntry → OutboxEntry) (e : OutboxEntry) (s : Store)
      → find_entry id s.outbox ≡ some e
      → (f e).id ≡ id
      → Touched id j f s (write_state p env (f e) s).1
  unfolding write_state run_after
  write_state-Touched env id j f e s q same =
      go (commit_tx-Ended p env (outbox_state (f e)) [] fs s)
    where
      fs : List (Index → Index)
      fs = (λ i. record i { outbox = set_entry (f e) i.outbox }) ∷ []

      go : {r : Result (Unit {0}) × Store} → Ended p fs s r → Touched id j f s r.1
      go (not_written x k) = inl refl
      go (landed k) = elim (Bool-cases ((f e).id == j)) [
        | inl b ↦
            let here : j ≡ id = ground arith in
            let found : find_entry j s.outbox ≡ some e = rw here q in
            inr (here, e, found, ground (arith, find_entry-set_entry j (f e) s.outbox))
        | inr b ↦ inl (ground (arith, find_entry-set_entry j (f e) s.outbox))
      ]

  update_outbox-Touched :
      (env : Env) (id j : ℕ) (f : OutboxEntry → OutboxEntry) (s : Store)
      → ((e : OutboxEntry) → (f e).id ≡ e.id)
      → Touched id j f s (update_outbox p env id f s).1
  unfolding update_outbox
  update_outbox-Touched env id j f s keep = elim (Option-cases (find_entry id s.outbox)) [
    | inl q ↦ rw (q, update_outbox) (inl refl)
    | inr (e, q) ↦
        rw (q, update_outbox)
          (write_state-Touched env id j f e s q (keep e ∙ find_entry-id id s.outbox e q))
  ]

  -- The note with this id is there and not delivered.
  abbrev Waits : ℕ → Store → Type 0
  Waits j s = (e : OutboxEntry) × (find_entry j s.outbox ≡ some e) × (delivered e ≡ false)

  fail_delivery-Waits :
      (env : Env) (id j : ℕ) (cause : String) (s : Store)
      → Waits j s
      → Waits j (fail_delivery p env id cause s).1
  unfolding fail_delivery delivered
  fail_delivery-Waits env id j cause s (e, q, d) =
      elim (update_outbox-Touched env id j (mark_failed env cause) s (λ x. refl)) [
        | inl k ↦ (e, k ∙ q, d)
        | inr (here, x, k, l) ↦
            let same : x ≡ e = ground arith in
            (mark_failed env cause x, l, subst (λ y. delivered y ≡ false) (sym same) d)
      ]

  deliver-Waits :
      (env : Env) (id j : ℕ) (s : Store) → id ≢ j → Waits j s → Waits j (deliver p env id s).1
  unfolding deliver
  deliver-Waits env id j s apart (e, q, d) =
      elim (update_outbox-Touched env id j (mark_delivered env) s (λ x. refl)) [
        | inl k ↦ (e, k ∙ q, d)
        | inr (here, x, k, l) ↦ absurd (apart (sym here))
      ]

  -- One round for a note that is refused, or for another one.
  settle-Waits :
      (world : OutboxEntry → Round) (j : ℕ) (x : OutboxEntry) (s : Store)
      → (x.id ≡ j → (cause : String) × ((world x).reply ≡ refused cause))
      → Waits j s
      → Waits j (settle p world x s).0.1
  unfolding settle
  settle-Waits world j x s h w = go (world x).reply refl
    where
      go : (r : Reply) → (world x).reply ≡ r → Waits j (settle p world x s).0.1
      go unconfigured e =
          rw (e, settle)
            (deliver-Waits (world x).env x.id j s (λ q. let (c, k) = h q in ground arith) w)
      go accepted e =
          rw (e, settle)
            (deliver-Waits (world x).env x.id j s (λ q. let (c, k) = h q in ground arith) w)
      go (refused cause) e = rw (e, settle) (fail_delivery-Waits (world x).env x.id j cause s w)

  drain_all-Waits :
      (world : OutboxEntry → Round) (j : ℕ)
      → ((x : OutboxEntry) → x.id ≡ j → (cause : String) × ((world x).reply ≡ refused cause))
      → (es : List OutboxEntry) (s : Store) → Waits j s
      → Waits j (drain_all p world es s).1
  unfolding drain_all
  drain_all-Waits world j h [] s w = w
  drain_all-Waits world j h (x ∷ es) s w =
      let w' = settle-Waits world j x s (h x) w in
      let rest = drain_all-Waits world j h es (settle p world x s).0.1 w' in
      elim (Bool-cases (world x).ended) [
        | inl b ↦ rw (b, drain_all) w
        | inr b ↦
            rw (b, drain_all)
              (elim (Option-cases (stops p world (settle p world x s).0.0 (settle p world x s).1)) [
                | inl q ↦ rw (q, drain_all) rest
                | inr (r, q) ↦ rw (q, drain_all) w'
              ])
      ]

  -- A note that is in the outbox, is not delivered, and is refused by its notifier, is still there and
  -- not delivered after a pass of the worker, whatever becomes of the other notes, of the context
  -- and of the disk.
  pub refused_is_kept :
      (world : OutboxEntry → Round) (env : Env) (batch j : ℕ) (s : Store) (e : OutboxEntry)
      → find_entry j s.outbox ≡ some e
      → delivered e ≡ false
      → ((x : OutboxEntry) → x.id ≡ j → (cause : String) × ((world x).reply ≡ refused cause))
      → (e' : OutboxEntry) × (find_entry j (drain p world env batch s).1.outbox ≡ some e')
        × (delivered e' ≡ false)
  unfolding drain
  refused_is_kept world env batch j s e q d h =
      drain_all-Waits world j h (due_outbox env (batch_size batch) s) s (e, q, d)
