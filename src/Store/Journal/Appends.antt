-- ===== src/Store/Journal/Appends.antt =====
-- One more group on the file: what is there after the process stops and opens the file again.
use dev_ops_pipeline_orchest.Prelude.{
  All, Bool-cases, List, Option-cases, [], ap, append-nil, arith, inl, inr, length, ltb, ltb→lt,
  none, refl, some, subst, suc, sym, take, zero, ℕ, ◌++◌, ◌+◌, ◌∙◌, ◌∷◌, ◌≡◌, ◌≤◌, ◌⊎◌, nat_eq,
}
use dev_ops_pipeline_orchest.Store.Rows.{Payload, Result, err, io, ok}
use dev_ops_pipeline_orchest.Store.Journal.{
  Bytes, Codec, Disk, IsCodec, Journal, append_group, apply_all, durable, encode_group, land,
  replay, short_write, sync_failed,
}
use dev_ops_pipeline_orchest.Store.Journal.Recovery.{
  IsPlain, Tail, Written, clean, cut, group, opened, replay-Written,
}

-- A journal whose file is the committed groups of `log` and nothing else.
pub record IsClean (c : Codec) (log : List Payload) (j : Journal) : Type 0 where
  pub committed : Written c j.seq log j.file

take_all : (k : ℕ) (b : Bytes) → length b ≤ k → take k b ≡ b
take_all zero [] h = refl
take_all (suc k) [] h = refl
take_all zero (x ∷ b) h = elim h [ ]
take_all (suc k) (x ∷ b) h = ap (◌∷◌ x) (take_all k b (omega arith))

module _ (c : Codec) where
  -- An append whose group could be encoded is one write.
  pub append_group-encoded :
      (disk : Disk) (ps : List Payload) (j : Journal) (b : Bytes)
      → encode_group c (j.seq + 1) ps ≡ some b
      → append_group c disk ps j ≡ land disk b (record j { seq = j.seq + 1 })
  unfolding append_group
  append_group-encoded disk ps j b e = rw (e, append_group)

  append_group-refused :
      (disk : Disk) (ps : List Payload) (j : Journal)
      → encode_group c (j.seq + 1) ps ≡ none
      → append_group c disk ps j ≡ (err io, j)
  unfolding append_group
  append_group-refused disk ps j e = rw (e, append_group)

  -- An append on a disk that takes the group succeeds with a clean journal, or changes nothing.
  pub append_group_cases :
      (p : Payload) (ps log : List Payload) (j : Journal)
      → IsClean c log j
      → All IsPlain (p ∷ ps)
      → ((j' : Journal) × (append_group c durable (p ∷ ps) j ≡ (ok tt, j'))
          × IsClean c (log ++ (p ∷ ps)) j')
        ⊎ (append_group c durable (p ∷ ps) j ≡ (err io, j))
  unfolding land
  append_group_cases p ps log j h plain =
      elim (Option-cases (encode_group c (j.seq + 1) (p ∷ ps))) [
        | inl q ↦ inr (append_group-refused durable (p ∷ ps) j q)
        | inr (b, q) ↦ inl (
          _,
          append_group-encoded durable (p ∷ ps) j b q,
          record { committed = group p ps b h.committed (omega arith) plain q refl refl },
        )
      ]

module _ {S : Type 0} (c : Codec) (good : IsCodec c) (apply : Payload → S → Result S) where
  -- Opening the file again builds `s'` from `s`, and leaves a clean journal of `log`.
  pub record Reopens (file : Bytes) (s s' : S) (log : List Payload) : Type 0 where
    pub journal : Journal
    pub replayed : replay c apply (opened file) s ≡ some (ok (s', journal))
    pub again : IsClean c log journal

  pub Reopens-IsClean :
      (log : List Payload) (j : Journal) (t : Bytes) (s s' : S)
      → IsClean c log j
      → Tail c t
      → apply_all c apply log s ≡ ok s'
      → Reopens (j.file ++ t) s s' log
  Reopens-IsClean log j t s s' h tail a = record {
    journal = record { file = j.file; seq = j.seq; syncs = 0; written = 0 };
    replayed = replay-Written c good apply s s' t h.committed tail a;
    again = record { committed = h.committed };
  }

  land-Reopens :
      (disk : Disk) (p : Payload) (ps log : List Payload) (j : Journal) (b : Bytes) (s s' s'' : S)
      → IsClean c log j
      → All IsPlain (p ∷ ps)
      → encode_group c (j.seq + 1) (p ∷ ps) ≡ some b
      → apply_all c apply log s ≡ ok s'
      → apply_all c apply (log ++ (p ∷ ps)) s ≡ ok s''
      → let r = land disk b (record j { seq = j.seq + 1 }) in
        (((disk ≡ durable) × (r.0 ≡ ok tt)) × Reopens r.1.file s s'' (log ++ (p ∷ ps)))
        ⊎ ((r.0 ≡ err io) × (Reopens r.1.file s s' log ⊎ Reopens r.1.file s s'' (log ++ (p ∷ ps))))
  unfolding land
  land-Reopens disk p ps log j b s s' s'' h plain e a a' = go disk
    where
      longer : Written c (j.seq + 1) (log ++ (p ∷ ps)) (j.file ++ b)
      longer = group p ps b h.committed (omega arith) plain e refl refl

      after : (file : Bytes) → file ≡ j.file ++ b → Reopens file s s'' (log ++ (p ∷ ps))
      after file f = record {
        journal = record { file = j.file ++ b; seq = j.seq + 1; syncs = 0; written = 0 };
        replayed =
            subst
              (λ x.
                replay c apply (opened x) s
                ≡ some (
                    ok (
                      s'',
                      record { file = j.file ++ b; seq = j.seq + 1; syncs = 0; written = 0 },
                    )))
              (append-nil (j.file ++ b) ∙ sym f)
              (replay-Written c good apply s s'' [] longer clean a');
        again = record { committed = longer };
      }

      go :
          (disk : Disk)
          → let r = land disk b (record j { seq = j.seq + 1 }) in
            (((disk ≡ durable) × (r.0 ≡ ok tt)) × Reopens r.1.file s s'' (log ++ (p ∷ ps)))
            ⊎ ((r.0 ≡ err io)
                × (Reopens r.1.file s s' log ⊎ Reopens r.1.file s s'' (log ++ (p ∷ ps))))
      go durable = inl ((refl, refl), after _ refl)
      go sync_failed = inr (refl, inr (after _ refl))
      go (short_write n) = elim (Bool-cases (ltb n (length b))) [
        | inl few ↦ inr (
          refl,
          inl (
              Reopens-IsClean log j (take n b) s s' h
                (cut (j.seq + 1) (p ∷ ps) b n plain e (ltb→lt _ _ few) refl) a),
        )
        | inr many ↦ inr (refl, inr (after _ (ap (◌++◌ j.file) (take_all n b (ground arith)))))
      ]

  -- All or nothing: whatever the disk does with one group on a clean journal, opening the file again
  -- finds the log as it was or the log with the whole group behind it, in one piece, and goes on from
  -- a clean journal. If the append reported success the group is there; if it failed, an error was
  -- reported.
  pub append_group_atomic :
      (disk : Disk) (p : Payload) (ps log : List Payload) (j : Journal) (s s' s'' : S)
      → IsClean c log j
      → All IsPlain (p ∷ ps)
      → apply_all c apply log s ≡ ok s'
      → apply_all c apply (log ++ (p ∷ ps)) s ≡ ok s''
      → let r = append_group c disk (p ∷ ps) j in
        (((disk ≡ durable) × (r.0 ≡ ok tt)) × Reopens r.1.file s s'' (log ++ (p ∷ ps)))
        ⊎ ((r.0 ≡ err io) × (Reopens r.1.file s s' log ⊎ Reopens r.1.file s s'' (log ++ (p ∷ ps))))
  unfolding append_group
  append_group_atomic disk p ps log j s s' s'' h plain a a' =
      elim (Option-cases (encode_group c (j.seq + 1) (p ∷ ps))) [
        | inl q ↦
            rw (q, append_group)
              (inr (refl, inl (rw (← append-nil j.file) (Reopens-IsClean log j [] s s' h clean a))))
        | inr (b, q) ↦ rw (q, append_group) (land-Reopens disk p ps log j b s s' s'' h plain q a a')
      ]
