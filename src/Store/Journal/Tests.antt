-- ===== src/Store/Journal/Tests.antt =====
-- Tests and examples for the journal.
use dev_ops_pipeline_orchest.Prelude.{
  List, [], arith, refl, some, take, ℕ, ◌++◌, ◌∷◌, ◌≡◌, ◌⊎◌, string_eq, nat_eq,
}
use dev_ops_pipeline_orchest.Store.Rows.{Payload, Result, corrupt, err, io, lease, ok}
use dev_ops_pipeline_orchest.Store.Journal.{
  Bytes, Journal, append_group, apply_all, durable, encode_group, encode_record, replay,
  short_write,
}
use dev_ops_pipeline_orchest.Store.Journal.Recovery.{
  Tail, Written, cut, group, nothing_yet, opened, replay-Written,
}
use dev_ops_pipeline_orchest.Store.Journal.Appends.{Reopens, append_group_atomic}
use dev_ops_pipeline_orchest.Store.Journal.ShortWrites.{short_write_poisons}
use dev_ops_pipeline_orchest.Store.Fixtures.{lease_codec, lease_codec-IsCodec}

abbrev one_lease : Payload
one_lease = lease (record {
  resource = "app:a/env:p";
  holder = "d1";
  owner_node = "n1";
  acquired_at = 5;
  expires_at = 35;
  fence_token = 1;
})

-- What is applied, in order.
abbrev keep_all : Payload → List Payload → Result (List Payload)
keep_all p ps = ok (ps ++ p ∷ [])

abbrev group_bytes : ℕ → Bytes
group_bytes n =
    (79 ∷ 82 ∷ 74 ∷ 49 ∷ 0 ∷ 0 ∷ 0 ∷ 5 ∷ 0 ∷ 0 ∷ 0 ∷ 7 ∷ 1 ∷ n ∷ 5 ∷ 35 ∷ 1 ∷ [])
    ++ 79 ∷ 82 ∷ 74 ∷ 49 ∷ 0 ∷ 0 ∷ 0 ∷ 2 ∷ 0 ∷ 0 ∷ 0 ∷ 7 ∷ 0 ∷ n ∷ []

abbrev no_file : Journal
no_file = record { file = []; seq = 0; syncs = 0; written = 0 }

written_once : Written lease_codec 1 (one_lease ∷ []) (group_bytes 1)
unfolding encode_group encode_record
written_once = group one_lease [] (group_bytes 1) nothing_yet (omega arith) (tt, tt) refl refl refl

torn_group : Tail lease_codec (take 20 (group_bytes 2))
unfolding encode_group encode_record
torn_group = cut 2 (one_lease ∷ []) (group_bytes 2) 20 (tt, tt) refl (omega arith) refl

replay-Written_example :
    replay lease_codec keep_all (opened (group_bytes 1 ++ take 20 (group_bytes 2))) []
    ≡ some (ok (one_lease ∷ [], record { file = group_bytes 1; seq = 1; syncs = 0; written = 0 }))
unfolding apply_all
replay-Written_example =
    replay-Written lease_codec lease_codec-IsCodec keep_all [] (one_lease ∷ [])
      (take 20 (group_bytes 2)) written_once torn_group refl

append_group_atomic_example :
    let r = append_group lease_codec (short_write 20) (one_lease ∷ []) no_file in
    (((short_write 20 ≡ durable) × (r.0 ≡ ok tt))
      × Reopens lease_codec lease_codec-IsCodec keep_all r.1.file []
          (one_lease ∷ [])
          (one_lease ∷ []))
    ⊎ ((r.0 ≡ err io)
        × (Reopens lease_codec lease_codec-IsCodec keep_all r.1.file [] [] []
            ⊎ Reopens lease_codec lease_codec-IsCodec keep_all r.1.file []
                (one_lease ∷ [])
                (one_lease ∷ [])))
unfolding apply_all
append_group_atomic_example =
    append_group_atomic lease_codec lease_codec-IsCodec keep_all (short_write 20) one_lease [] []
      no_file [] [] (one_lease ∷ []) (record { committed = nothing_yet }) (tt, tt) refl refl

short_write_poisons_example :
    let j1 = (append_group lease_codec (short_write 3) (one_lease ∷ []) no_file).1 in
    let r = append_group lease_codec durable (one_lease ∷ []) j1 in
    (r.0 ≡ ok tt) × (replay lease_codec keep_all (opened r.1.file) [] ≡ some (err corrupt))
unfolding apply_all encode_group encode_record
short_write_poisons_example =
    short_write_poisons lease_codec lease_codec-IsCodec keep_all 3 (one_lease ∷ []) (one_lease ∷ [])
      [] no_file [] [] (group_bytes 1) (group_bytes 2) (record { committed = nothing_yet }) refl
      (omega arith) (omega arith) refl refl
