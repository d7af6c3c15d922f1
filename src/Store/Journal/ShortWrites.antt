-- ===== src/Store/Journal/ShortWrites.antt =====
-- A failed write that left a few bytes behind: `appendGroup` does not take them back, so the groups
-- that are committed after it stand behind garbage.
use dev_ops_pipeline_orchest.Prelude.{
  List, [], ap, append-nil, append_assoc, arith, length, refl, some, suc, sym, take, zero, ℕ, ◌++◌,
  ◌+◌, ◌<◌, ◌∙◌, ◌∷◌, ◌≡◌, nat_eq,
}
use dev_ops_pipeline_orchest.Store.Rows.{Payload, Result, corrupt, err, ok}
use dev_ops_pipeline_orchest.Store.Journal.{
  Bytes, Codec, IsCodec, Journal, append_group, apply_all, damaged, durable, encode_group, land,
  read_frame, replay, short_write,
}
use dev_ops_pipeline_orchest.Store.Journal.Frames.{encode_cases, image}
use dev_ops_pipeline_orchest.Store.Journal.Recovery.{
  Scans-Written, encode_group_cases, opened, scan,
}
use dev_ops_pipeline_orchest.Store.Journal.Appends.{IsClean, append_group-encoded}
use dev_ops_pipeline_orchest.Store.Journal.Scans.{Scans, damage, replay_loop-Scans}

module _ (c : Codec) (good : IsCodec c) where
  -- A group begins with the bytes of a record.
  encode_group_head :
      (seq : ℕ) (ps : List Payload) (b : Bytes)
      → encode_group c seq ps ≡ some b
      → (p : Bytes) × (more : Bytes) × (b ≡ image c good p ++ more)
  unfolding encode_group
  encode_group_head seq [] b e =
      let (p, q, same) = encode_cases c good _ b e in
      (p, [], same ∙ sym (append-nil (image c good p)))
  encode_group_head seq (x ∷ ps) b e =
      let (b1, b2, e1, e2, same) = encode_group_cases c seq x ps b e in
      let (p, q, same') = encode_cases c good _ b1 e1 in (p, b2, same ∙ ap (λ y. y ++ b2) same')

  garbage_head :
      (k : ℕ) (p q m m' : Bytes)
      → 0 < k
      → k < 4
      → read_frame c (take k (image c good p ++ m) ++ (image c good q ++ m')) ≡ damaged
  unfolding read_frame
  garbage_head zero p q m m' h l = elim h [ ]
  garbage_head (suc zero) p q m m' h l = refl
  garbage_head (suc (suc zero)) p q m m' h l = refl
  garbage_head (suc (suc (suc zero))) p q m m' h l = refl
  garbage_head (suc (suc (suc (suc k)))) p q m m' h l = absurd (omega arith)

  module _ {S : Type 0} (apply : Payload → S → Result S) where
    -- After a write of which one to three bytes landed, the next group can be committed with success,
    -- and then the journal can no longer be opened: the replay refuses the file as corrupt, with
    -- every group that was committed before and since.
    pub short_write_poisons :
        (k : ℕ) (ps qs log : List Payload) (j : Journal) (s s' : S) (b b' : Bytes)
        → IsClean c log j
        → apply_all c apply log s ≡ ok s'
        → 0 < k
        → k < 4
        → encode_group c (j.seq + 1) ps ≡ some b
        → encode_group c (j.seq + 1 + 1) qs ≡ some b'
        → let j1 = (append_group c (short_write k) ps j).1 in
          let r = append_group c durable qs j1 in
          (r.0 ≡ ok tt) × (replay c apply (opened r.1.file) s ≡ some (err corrupt))
    unfolding land replay
    short_write_poisons k ps qs log j s s' b b' h a lo hi e e' =
        rw (append_group-encoded c (short_write k) ps j b e)
          (rw (append_group-encoded c durable qs broken b' e') (refl, refused))
      where
        broken : Journal
        broken = record j { file = j.file ++ take k b; seq = j.seq + 1 }

        garbage : Bytes
        garbage = take k b ++ b'

        head_damaged : read_frame c garbage ≡ damaged
        head_damaged =
            let (p, m, f) = encode_group_head (j.seq + 1) ps b e in
            let (q, m', f') = encode_group_head (j.seq + 1 + 1) qs b' e' in
            rw (f, f') (garbage_head k p q m m' lo hi)

        run : Scans c apply (j.file ++ garbage) (scan 0 [] 0 0 0 s) (err corrupt)
        run = Scans-Written c good apply s s' garbage h.committed a (damage head_damaged refl)

        refused : replay c apply (opened ((j.file ++ take k b) ++ b')) s ≡ some (err corrupt)
        refused = rw append_assoc (
            rw (
              replay_loop-Scans c apply (suc (length (j.file ++ garbage))) (j.file ++ garbage)
                  (scan 0 [] 0 0 0 s) (omega arith) run,
              replay,
            ))
