-- ===== src/Store/Durability/NoteOps.antt =====
-- Enqueueing a note and recording what became of one keep the store sound.
use dev_ops_pipeline_orchest.Prelude.{
  Bool-cases, List, Option-cases, String, [], ap, arith, inl, inr, refl, some, sym, ℕ, ◌+◌, ◌==◌,
  ◌∙◌, ◌∷◌, ◌≡◌, ◌≤◌, string_eq, nat_eq,
}
use dev_ops_pipeline_orchest.Store.Rows.{OutboxEntry, ok}
use dev_ops_pipeline_orchest.Store.Index.{apply_record, set_states, take_state}
use dev_ops_pipeline_orchest.Store.Transactions.{Env, Platform, Store, run_after}
use dev_ops_pipeline_orchest.Store.Outbox.{
  deliver, enqueue, fail_delivery, find_entry, mark_delivered, mark_failed, set_entry,
  update_outbox, write_state,
}
use dev_ops_pipeline_orchest.Store.Journal.{apply_all, durable}
use dev_ops_pipeline_orchest.Store.Durability.{with_seq}
use dev_ops_pipeline_orchest.Store.Durability.Sound.{
  IsSound, Leaves, Leaves-same, Rising, Rising-mono, commit_tx-IsSound,
}
use dev_ops_pipeline_orchest.Store.Durability.NoteSteps.{
  Follow-numbered, Rising-notes, apply_all-notes, at_seq, numbered,
}

Rising-le : (lo : ℕ) (es : List OutboxEntry) (hi : ℕ) → Rising lo es hi → lo ≤ hi
Rising-le lo [] hi r = r
Rising-le lo (e ∷ es) hi r = let rest = Rising-le e.id es hi r.1 in omega arith

set_states_above :
    (o : OutboxEntry) (lo : ℕ) (es : List OutboxEntry) (hi : ℕ)
    → o.id ≤ lo
    → Rising lo es hi
    → set_states o es ≡ es
unfolding set_states
set_states_above o lo [] hi h r = refl
set_states_above o lo (e ∷ es) hi h r =
    ground (arith, set_states_above o e.id es hi (omega arith) r.1)

-- As ids rise, the entries with an id are one: updating all of them is updating the first.
set_states-set_entry :
    (o e : OutboxEntry) (lo : ℕ) (es : List OutboxEntry) (hi : ℕ)
    → Rising lo es hi
    → find_entry o.id es ≡ some e
    → take_state o e ≡ o
    → set_states o es ≡ set_entry o es
unfolding set_states set_entry find_entry
set_states-set_entry o e lo [] hi r f k = cc
set_states-set_entry o e lo (x ∷ es) hi r f k = elim (Bool-cases (x.id == o.id)) [
  | inl q ↦
      let same : x ≡ e = ground arith in
      let rest = set_states_above o x.id es hi (ground arith) r.1 in rw q (rw (same, k, rest))
  | inr q ↦ rw q (ap (◌∷◌ x) (set_states-set_entry o e x.id es hi r.1 (ground arith) k))
]

Rising-set_entry :
    (o : OutboxEntry) (lo : ℕ) (es : List OutboxEntry) (hi : ℕ)
    → Rising lo es hi
    → Rising lo (set_entry o es) hi
unfolding set_entry
Rising-set_entry o lo [] hi r = r
Rising-set_entry o lo (x ∷ es) hi r = elim (Bool-cases (x.id == o.id)) [
  | inl q ↦ let same : x.id ≡ o.id = ground arith in rw q (rw same at r)
  | inr q ↦ rw q (r.0, Rising-set_entry o x.id es hi r.1)
]

pub find_entry-id :
    (id : ℕ) (es : List OutboxEntry) (e : OutboxEntry) → find_entry id es ≡ some e → e.id ≡ id
unfolding find_entry
find_entry-id id [] e h = cc
find_entry-id id (x ∷ es) e h = ground (arith, find_entry-id id es e)

pub at_seq-IsSound :
    (p : Platform) (n : ℕ) (s : Store) → s.outbox_seq ≤ n → IsSound p s → IsSound p (at_seq n s)
at_seq-IsSound p n s le h = record {
  on_disk = record {
    log = h.on_disk.log;
    on_file = h.on_disk.on_file;
    lag = h.on_disk.lag;
    lag_le = omega arith;
    replayed = h.on_disk.replayed;
  };
  consistent = record {
    row_id = h.consistent.row_id;
    row_key = h.consistent.row_key;
    lease_row = h.consistent.lease_row;
    ids = Rising-mono 0 s.outbox s.outbox_seq n le h.consistent.ids;
  };
}

module _ (p : Platform) (env : Env) (taken : env.disk ≡ durable) where
  write_state-IsSound :
      (o e : OutboxEntry) (s : Store)
      → find_entry o.id s.outbox ≡ some e
      → take_state o e ≡ o
      → IsSound p s
      → Leaves p (write_state p env o s)
  unfolding write_state apply_all apply_record run_after
  write_state-IsSound o e s f k h =
      commit_tx-IsSound p env _ _ s taken h
        (record {
          plain = (tt, tt);
          agrees = λ q le. (
            q,
            le,
            ap (λ es. ok (with_seq q (record s.index { outbox = es })))
                (set_states-set_entry o e 0 s.outbox s.outbox_seq h.consistent.ids f k),
          );
        })
        (record {
          row_id = h.consistent.row_id;
          row_key = h.consistent.row_key;
          lease_row = h.consistent.lease_row;
          ids = Rising-set_entry o 0 s.outbox s.outbox_seq h.consistent.ids;
        })

  update_outbox-IsSound :
      (id : ℕ) (f : OutboxEntry → OutboxEntry) (s : Store)
      → ((e : OutboxEntry) → take_state (f e) e ≡ f e)
      → IsSound p s
      → Leaves p (update_outbox p env id f s)
  unfolding update_outbox
  update_outbox-IsSound id f s keep h = elim (Option-cases (find_entry id s.outbox)) [
    | inl q ↦ rw (q, update_outbox) (Leaves-same p _ s h)
    | inr (e, q) ↦
        let same : (f e).id ≡ id =
          ap (λ (x : OutboxEntry). x.id) (sym (keep e)) ∙ find_entry-id id s.outbox e q in
        rw (q, update_outbox) (write_state-IsSound (f e) e s (rw same q) (keep e) h)
  ]

  pub deliver-IsSound : (id : ℕ) (s : Store) → IsSound p s → Leaves p (deliver p env id s)
  unfolding deliver
  deliver-IsSound id s h = update_outbox-IsSound id (mark_delivered env) s (λ e. refl) h

  pub fail_delivery-IsSound :
      (id : ℕ) (cause : String) (s : Store)
      → IsSound p s
      → Leaves p (fail_delivery p env id cause s)
  unfolding fail_delivery
  fail_delivery-IsSound id cause s h =
      update_outbox-IsSound id (mark_failed env cause) s (λ e. refl) h

  pub enqueue-IsSound : (e : OutboxEntry) (s : Store) → IsSound p s → Leaves p (enqueue p env e s)
  unfolding enqueue apply_all apply_record run_after
  enqueue-IsSound e s h =
      let n = s.outbox_seq + 1 in
      let h' = at_seq-IsSound p n s (omega arith) h in
      commit_tx-IsSound p env _ _ (at_seq n s) taken h'
        (record {
          plain = (tt, tt);
          agrees = λ q le.
              let (q', le', same) =
                apply_all-notes p.codec s.outbox_seq q (numbered env s.outbox_seq (e ∷ [])) s.index
                  le (Follow-numbered env s.outbox_seq (e ∷ [])) in
              (q', le', same);
        })
        (record {
          row_id = h.consistent.row_id;
          row_key = h.consistent.row_key;
          lease_row = h.consistent.lease_row;
          ids =
              Rising-notes 0 s.outbox_seq s.outbox _ h.consistent.ids
                (Follow-numbered env s.outbox_seq (e ∷ []));
        })
