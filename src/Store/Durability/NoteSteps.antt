-- ===== src/Store/Durability/NoteSteps.antt =====
-- The outbox operations keep the store sound.
use dev_ops_pipeline_orchest.Prelude.{
  List, [], ap, append-nil, append_assoc, arith, if◌then◌else◌, ltb, map, refl, sym, ℕ, ◌++◌, ◌+◌,
  ◌∙◌, ◌∷◌, ◌≡◌, ◌≤◌, string_eq, nat_eq,
}
use dev_ops_pipeline_orchest.Store.Rows.{OutboxEntry, Payload, ok, outbox}
use dev_ops_pipeline_orchest.Store.Index.{Index, apply_record}
use dev_ops_pipeline_orchest.Store.Transactions.{Env, Store, Tx, run_after}
use dev_ops_pipeline_orchest.Store.Outbox.{append_note, enqueue_all, enqueue_tx, queued}
use dev_ops_pipeline_orchest.Store.Journal.{Codec, apply_all}
use dev_ops_pipeline_orchest.Store.Durability.{with_seq}
use dev_ops_pipeline_orchest.Store.Durability.Sound.{Rising, Rising-append}

-- The notes of a transaction, with the ids that follow `n`.
abbrev pub numbered : Env → ℕ → List OutboxEntry → List OutboxEntry
numbered env n [] = []
numbered env n (e ∷ es) = queued env (n + 1) e ∷ numbered env (n + 1) es

abbrev pub top_id : ℕ → List OutboxEntry → ℕ
top_id n [] = n
top_id n (e ∷ es) = top_id e.id es

-- Ids that follow one another from behind `n`.
abbrev pub Follow : ℕ → List OutboxEntry → Type 0
Follow n [] = Unit
Follow n (e ∷ es) = (e.id ≡ n + 1) × Follow e.id es

pub Follow-numbered : (env : Env) (n : ℕ) (es : List OutboxEntry) → Follow n (numbered env n es)
Follow-numbered env n [] = tt
Follow-numbered env n (e ∷ es) = (refl, Follow-numbered env (n + 1) es)

abbrev pub note_recs : List OutboxEntry → List Payload
note_recs = map outbox

abbrev pub note_after : List OutboxEntry → List (Index → Index)
note_after = map append_note

abbrev pub at_seq : ℕ → Store → Store
at_seq n s = record s { index = record s.index { outbox_seq = n } }

-- What the loop over the notes does to a transaction.
pub enqueue_all_lem :
    (env : Env) (es : List OutboxEntry) (s : Store) (tx : Tx)
    → enqueue_all env es s tx ≡ (
      at_seq (top_id s.outbox_seq (numbered env s.outbox_seq es)) s,
      record {
        recs = tx.recs ++ note_recs (numbered env s.outbox_seq es);
        apply_after = tx.apply_after ++ note_after (numbered env s.outbox_seq es);
      },
    )
unfolding enqueue_all
enqueue_all_lem env [] s tx = simp append-nil
enqueue_all_lem env (e ∷ es) s tx =
    enqueue_all_lem env es (enqueue_tx env e s tx).0 (enqueue_tx env e s tx).1 ∙ simp append_assoc

pub run_after-append :
    (fs gs : List (Index → Index)) (i : Index)
    → run_after (fs ++ gs) i ≡ run_after gs (run_after fs i)
unfolding run_after
run_after-append [] gs i = refl
run_after-append (f ∷ fs) gs i = run_after-append fs gs (f i)

abbrev pub with_notes : List OutboxEntry → Index → Index
with_notes qs i = record i { outbox = i.outbox ++ qs }

pub run_after-notes :
    (qs : List OutboxEntry) (i : Index) → run_after (note_after qs) i ≡ with_notes qs i
unfolding run_after
run_after-notes [] i = ap (λ o. record i { outbox = o }) (sym (append-nil i.outbox))
run_after-notes (e ∷ qs) i =
    run_after-notes qs (append_note e i)
    ∙ ap (λ o. record i { outbox = o }) (append_assoc i.outbox (e ∷ []) qs)

pub le-top_id : (n : ℕ) (qs : List OutboxEntry) → Follow n qs → n ≤ top_id n qs
le-top_id n [] f = omega arith
le-top_id n (e ∷ qs) f = omega (arith, le-top_id e.id qs f.1)

pub apply_all-notes :
    (c : Codec) (n q : ℕ) (qs : List OutboxEntry) (i : Index)
    → q ≤ top_id n qs
    → Follow n qs
    → (q' : ℕ) × (q' ≤ top_id n qs)
      × (apply_all c apply_record (note_recs qs) (with_seq q i)
          ≡ ok (with_seq q' (with_notes qs i)))
unfolding apply_all apply_record
apply_all-notes c n q [] i le f =
    (q, le, ap (λ o. ok (with_seq q (record i { outbox = o }))) (sym (append-nil i.outbox)))
apply_all-notes c n q (e ∷ qs) i le f =
    let (q', le', rest) =
      apply_all-notes c e.id (if ltb q e.id then e.id else q) qs (append_note e i)
        (ground (arith, le-top_id e.id qs f.1)) f.1 in
    (
      q',
      le',
      rest
          ∙ ap (λ o. ok (with_seq q' (record i { outbox = o })))
              (append_assoc i.outbox (e ∷ []) qs),
    )

pub Rising-notes :
    (lo n : ℕ) (es qs : List OutboxEntry)
    → Rising lo es n
    → Follow n qs
    → Rising lo (es ++ qs) (top_id n qs)
Rising-notes lo n es [] r f = rw append-nil r
Rising-notes lo n es (e ∷ qs) r f =
    rw (← append_assoc es (e ∷ []) qs)
      (Rising-notes lo e.id (es ++ e ∷ []) qs (Rising-append lo es n e (omega arith) r) f.1)
