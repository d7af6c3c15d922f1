-- ===== src/Store/Journal/Scans.antt =====
-- The loop of `replay` as a relation without fuel, and that the fuel which `replay` gives suffices.
use dev_ops_pipeline_orchest.Prelude.{
  [], arith, drop, inl, inr, length, refl, some, suc, zero, ℕ, ◌<◌, ◌∷◌, ◌≡◌, ◌≤◌, ◌⊎◌, nat_eq,
}
use dev_ops_pipeline_orchest.Store.Rows.{Payload, Record, Result, StoreError, corrupt, err, ok}
use dev_ops_pipeline_orchest.Store.Journal.{
  Bytes, Codec, Frame, Scan, accept, damaged, frame, of_be32, read_frame, read_payload, replay_loop,
  torn,
}

module _ {S : Type 0} (c : Codec) (apply : Payload → S → Result S) where
  -- `Scans bs st res`: over the bytes `bs` from the loop's variables `st` the loop ends with `res`.
  pub data Scans : Bytes → Scan S → Result (Scan S) → Type 0 where
    stop :
        {bs : Bytes} {st : Scan S} {res : Result (Scan S)}
        → read_frame c bs ≡ torn
        → res ≡ ok st
        → Scans bs st res
    damage :
        {bs : Bytes} {st : Scan S} {res : Result (Scan S)}
        → read_frame c bs ≡ damaged
        → res ≡ err corrupt
        → Scans bs st res
    refuse :
        {bs : Bytes} {st : Scan S} {res : Result (Scan S)} (r : Record) (size : ℕ) (rest : Bytes)
        (e : StoreError)
        → read_frame c bs ≡ frame r size rest
        → accept c apply r.payload r.seq size st ≡ err e
        → res ≡ err e
        → Scans bs st res
    next :
        {bs : Bytes} {st : Scan S} {res : Result (Scan S)} (r : Record) (size : ℕ) (rest : Bytes)
        (st' : Scan S)
        → read_frame c bs ≡ frame r size rest
        → accept c apply r.payload r.seq size st ≡ ok st'
        → Scans rest st' res
        → Scans bs st res

  length-drop-le : (n : ℕ) (bs : Bytes) → length (drop n bs) ≤ length bs
  length-drop-le zero bs = omega arith
  length-drop-le (suc n) [] = omega arith
  length-drop-le (suc n) (b ∷ bs) = omega (arith, length-drop-le n bs)

  read_payload-rest :
      (n want : ℕ) (body : Bytes) (r : Record) (size : ℕ) (rest : Bytes)
      → read_payload c n want body ≡ frame r size rest
      → length rest ≤ length body
  unfolding read_payload
  read_payload-rest n want body r size rest h = ground (arith, length-drop-le n body)

  -- A record takes bytes off the file.
  read_frame-rest :
      (bs : Bytes) (r : Record) (size : ℕ) (rest : Bytes)
      → read_frame c bs ≡ frame r size rest
      → length rest < length bs
  unfolding read_frame
  read_frame-rest (m0 ∷ m1 ∷ m2 ∷ m3 ∷ l0 ∷ l1 ∷ l2 ∷ l3 ∷ k0 ∷ k1 ∷ k2 ∷ k3 ∷ body) r size rest h =
      ground (arith, read_payload-rest (of_be32 l0 l1 l2 l3) (of_be32 k0 k1 k2 k3) body r size rest)
  read_frame-rest _ r size rest h = cc

  -- Where the relation says how the loop ends, the loop with enough fuel ends so.
  pub replay_loop-Scans :
      (fuel : ℕ) (bs : Bytes) (st : Scan S) {res : Result (Scan S)}
      → length bs < fuel
      → Scans bs st res
      → replay_loop c apply fuel bs st ≡ some res
  unfolding replay_loop
  replay_loop-Scans zero bs st h run = elim h [ ]
  replay_loop-Scans (suc fuel) bs st h (stop f e) = rw (f, e, replay_loop)
  replay_loop-Scans (suc fuel) bs st h (damage f e) = rw (f, e, replay_loop)
  replay_loop-Scans (suc fuel) bs st h (refuse r size rest x f a e) = rw (f, a, e, replay_loop)
  replay_loop-Scans (suc fuel) bs st h (next r size rest st' f a run) =
      let fewer = read_frame-rest bs r size rest f in
      rw (f, a, replay_loop) (replay_loop-Scans fuel rest st' (omega arith) run)

  Result-cases :
      (r : Result (Scan S)) → ((s : Scan S) × (r ≡ ok s)) ⊎ ((e : StoreError) × (r ≡ err e))
  Result-cases (ok s) = inl (s, refl)
  Result-cases (err e) = inr (e, refl)

  Frame-cases :
      (f : Frame)
      → (f ≡ torn)
        ⊎ ((f ≡ damaged) ⊎ ((r : Record) × (size : ℕ) × (rest : Bytes) × (f ≡ frame r size rest)))
  Frame-cases torn = inl refl
  Frame-cases damaged = inr (inl refl)
  Frame-cases (frame r size rest) = inr (inr (r, size, rest, refl))

  -- Every file is scanned to an end.
  Scans-total :
      (fuel : ℕ) (bs : Bytes) (st : Scan S)
      → length bs < fuel
      → (res : Result (Scan S)) × Scans bs st res
  Scans-total zero bs st h = elim h [ ]
  Scans-total (suc fuel) bs st h = elim (Frame-cases (read_frame c bs)) [
    | inl f ↦ (ok st, stop f refl)
    | inr (inl f) ↦ (err corrupt, damage f refl)
    | inr (inr (r, size, rest, f)) ↦ elim (Result-cases (accept c apply r.payload r.seq size st)) [
      | inl (st', a) ↦
          let (res, run) =
            Scans-total fuel rest st'
              (let fewer = read_frame-rest bs r size rest f in omega arith) in
          (res, next r size rest st' f a run)
      | inr (e, a) ↦ (err e, refuse r size rest e f a refl)
    ]
  ]
