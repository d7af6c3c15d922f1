-- ===== src/Store/Durability.antt =====
-- The journal is the truth: replaying the file gives the index that the store holds, after every
-- operation. Only the counter of outbox ids may lag behind, since it is taken before a transaction
-- that then fails.
pub mod Sound
pub mod LeaseSteps
pub mod RowSteps
pub mod MoveSteps
pub mod NoteSteps
pub mod NoteOps
pub mod TableSteps
pub mod Reopen
use dev_ops_pipeline_orchest.Prelude.{
  All, List, [], inl, inr, ℕ, ◌++◌, ◌∙◌, ◌∷◌, ◌≡◌, ◌≤◌, string_eq, nat_eq,
}
use dev_ops_pipeline_orchest.Store.Rows.{Payload, ok}
use dev_ops_pipeline_orchest.Store.Index.{Index, apply_record, empty_index}
use dev_ops_pipeline_orchest.Store.Transactions.{Env, Platform, Store, Tx, commit_tx, run_after}
use dev_ops_pipeline_orchest.Store.Journal.{Codec, Journal, apply_all, durable}
use dev_ops_pipeline_orchest.Store.Journal.Appends.{IsClean, append_group_cases}
use dev_ops_pipeline_orchest.Store.Journal.Recovery.{IsPlain, apply_all-append}

abbrev pub with_seq : ℕ → Index → Index
with_seq q i = record i { outbox_seq = q }

-- Applying the records of a transaction is what its functions do to the index.
pub record Agrees (c : Codec) (tx : Tx) (i : Index) : Type 0 where
  pub plain : All IsPlain tx.recs
  pub agrees :
      (q : ℕ)
      → q ≤ i.outbox_seq
      → (q' : ℕ) × (q' ≤ (run_after tx.apply_after i).outbox_seq)
        × (apply_all c apply_record tx.recs (with_seq q i)
            ≡ ok (with_seq q' (run_after tx.apply_after i)))

-- The file holds the committed groups of `log`, and replaying them gives the index of the store.
pub record IsDurable (p : Platform) (s : Store) : Type 0 where
  pub log : List Payload
  pub on_file : IsClean p.codec log s.journal
  pub lag : ℕ
  pub lag_le : lag ≤ s.outbox_seq
  pub replayed : apply_all p.codec apply_record log empty_index ≡ ok (with_seq lag s.index)

module _ (p : Platform) where
  written_on :
      (recs : List Payload) (fs : List (Index → Index)) (s : Store) (j : Journal)
      → (d : IsDurable p s) → IsClean p.codec (d.log ++ recs) j
      → Agrees p.codec (record { recs = recs; apply_after = fs }) s.index
      → IsDurable p (record s { index = run_after fs s.index; journal = j })
  written_on recs fs s j d tidy a =
      let (q, le, same) = a.agrees d.lag d.lag_le in
      record {
        log = d.log ++ recs;
        on_file = tidy;
        lag = q;
        lag_le = le;
        replayed = apply_all-append p.codec apply_record d.log recs _ _ d.replayed ∙ same;
      }

  -- A commit on a disk that takes the group leaves a durable store, whether it succeeds or not.
  pub commit_tx-IsDurable :
      (env : Env) (recs : List Payload) (fs : List (Index → Index)) (s : Store)
      → env.disk ≡ durable
      → IsDurable p s
      → Agrees p.codec (record { recs = recs; apply_after = fs }) s.index
      → IsDurable p (commit_tx p env (record { recs = recs; apply_after = fs }) s).1
  unfolding commit_tx
  commit_tx-IsDurable env [] fs s e d a = d
  commit_tx-IsDurable env (r ∷ rs) fs s e d a =
      rw e (elim (append_group_cases p.codec r rs d.log s.journal d.on_file a.plain) [
        | inl (j, q, tidy) ↦ rw q (written_on (r ∷ rs) fs s j d tidy a)
        | inr q ↦ rw q d
      ])
