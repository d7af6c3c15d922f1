-- ===== src/Store/Journal/Recovery.antt =====
-- What reopening finds: every committed group, and nothing of a group that was cut short.
use dev_ops_pipeline_orchest.Prelude.{
  All, Bool-cases, List, Option-cases, [], ap, append-nil, append_assoc, arith, inl, inr, length,
  length-append, ltb, ltb→lt, nat_beq_iff, refl, some, subst, suc, sym, take, take-append_self, ℕ,
  ◌++◌, ◌+◌, ◌-◌, ◌<◌, ◌∙◌, ◌∷◌, ◌≡◌, ◌⊎◌, nat_eq,
}
use dev_ops_pipeline_orchest.Store.Rows.{Payload, Result, StoreError, commit, err, ok}
use dev_ops_pipeline_orchest.Store.Journal.{
  Bytes, Codec, IsCodec, Journal, Scan, accept, add_to_group, apply_all, close_group, encode_group,
  encode_record, read_frame, replay, torn,
}
use dev_ops_pipeline_orchest.Store.Journal.Frames.{
  read_frame-encode, read_frame-part, take_long, take_short,
}
use dev_ops_pipeline_orchest.Store.Journal.Scans.{Scans, next, replay_loop-Scans, stop}

-- What a transaction writes: any kind but the commit marker.
abbrev pub IsPlain : Payload → Type 0
IsPlain commit = ⊥
IsPlain _ = Unit

-- openJournal, before the replay
abbrev pub opened : Bytes → Journal
opened file = record { file = file; seq = 0; syncs = 0; written = 0 }

abbrev pub scan : {S : Type 0} → ℕ → List Payload → ℕ → ℕ → ℕ → S → Scan S
scan seq recs good off top s = record {
  group_seq = seq;
  group_recs = recs;
  last_good = good;
  offset = off;
  top_seq = top;
  built = s;
}

module _ (c : Codec) where
  pub encode_group_cases :
      (seq : ℕ) (p : Payload) (ps : List Payload) (b : Bytes)
      → encode_group c seq (p ∷ ps) ≡ some b
      → (b1 : Bytes) × (b2 : Bytes) × (encode_record c (record { payload = p; seq = seq })
          ≡ some b1)
        × (encode_group c seq ps ≡ some b2)
        × (b ≡ b1 ++ b2)
  unfolding encode_group
  encode_group_cases seq p ps b h =
      elim (Option-cases (encode_record c (record { payload = p; seq = seq }))) [
        | inl e ↦ ground (arith, e)
        | inr (b1, e) ↦ elim (Option-cases (encode_group c seq ps)) [
          | inl e' ↦ ground (arith, e, e')
          | inr (b2, e') ↦ (b1, b2, e, e', ground (arith, e, e'))
        ]
      ]

  -- `Written n log file`: the file is what committing the payloads of `log`, in groups with rising
  -- sequence numbers up to `n`, writes.
  pub data Written : ℕ → List Payload → Bytes → Type 0 where
    nothing_yet : Written 0 [] []
    group :
        {n seq : ℕ} {log log' : List Payload} {bs bs' : Bytes} (p : Payload) (ps : List Payload)
        (b : Bytes)
        → Written n log bs
        → n < seq
        → All IsPlain (p ∷ ps)
        → encode_group c seq (p ∷ ps) ≡ some b
        → log' ≡ log ++ (p ∷ ps)
        → bs' ≡ bs ++ b
        → Written seq log' bs'

  -- The end of a file behind its committed groups: nothing, or a group cut short.
  pub data Tail : Bytes → Type 0 where
    clean : Tail []
    cut :
        {t : Bytes} (seq : ℕ) (ps : List Payload) (b : Bytes) (k : ℕ)
        → All IsPlain ps
        → encode_group c seq ps ≡ some b
        → k < length b
        → t ≡ take k b
        → Tail t

module _ {S : Type 0} (c : Codec) (apply : Payload → S → Result S) where
  cases : (r : Result S) → ((s : S) × (r ≡ ok s)) ⊎ ((x : StoreError) × (r ≡ err x))
  cases (ok s) = inl (s, refl)
  cases (err x) = inr (x, refl)

  pub apply_all-append :
      (ps qs : List Payload) (s t : S)
      → apply_all c apply ps s ≡ ok t
      → apply_all c apply (ps ++ qs) s ≡ apply_all c apply qs t
  unfolding apply_all
  apply_all-append [] qs s t h = ground arith
  apply_all-append (p ∷ ps) qs s t h = elim (cases (apply p s)) [
    | inl (s', e) ↦ rw (e, apply_all) (apply_all-append ps qs s' t (rw (e, apply_all) at h))
    | inr (x, e) ↦ ground (arith, e)
  ]

  ok-injective : {s t : S} → ok s ≡ ok t → s ≡ t
  ok-injective h = cc h

  apply_all_split :
      (ps qs : List Payload) (s u : S)
      → apply_all c apply (ps ++ qs) s ≡ ok u
      → (t : S) × (apply_all c apply ps s ≡ ok t) × (apply_all c apply qs t ≡ ok u)
  unfolding apply_all
  apply_all_split [] qs s u h = (s, refl, h)
  apply_all_split (p ∷ ps) qs s u h = elim (cases (apply p s)) [
    | inl (s', e) ↦
        let (t, a, b) = apply_all_split ps qs s' u (rw (e, apply_all) at h) in
        (t, rw (e, apply_all) a, b)
    | inr (x, e) ↦ ground (arith, e)
  ]

module _ {S : Type 0} (c : Codec) (good : IsCodec c) (apply : Payload → S → Result S) where
  accept-IsPlain :
      (p : Payload) (seq size : ℕ) (st : Scan S)
      → IsPlain p
      → accept c apply p seq size st ≡ add_to_group c apply p seq size st
  unfolding accept
  accept-IsPlain commit seq size st h = absurd h
  accept-IsPlain _ seq size st h = refl

  close_group_lem :
      (seq : ℕ) (recs : List Payload) (at off off' size top : ℕ) (s s' : S)
      → apply_all c apply recs s ≡ ok s'
      → top < seq
      → off + size ≡ off'
      → accept c apply commit seq size (scan seq recs at off top s)
        ≡ ok (scan 0 [] off' off' seq s')
  unfolding accept close_group
  close_group_lem seq recs at off off' size top s s' h lt e = ground (arith, h, nat_beq_iff seq seq)

  -- A plain record joins the open group.
  add_lem :
      (seq g : ℕ) (p : Payload) (recs : List Payload) (at off size top : ℕ) (s : S)
      → IsPlain p
      → (g ≡ seq) ⊎ (g ≡ 0)
      → accept c apply p seq size (scan g recs at off top s)
        ≡ ok (scan seq (recs ++ p ∷ []) at (off + size) top s)
  unfolding add_to_group
  add_lem seq g p recs at off size top s plain h =
      accept-IsPlain p seq size (scan g recs at off top s) plain ∙ ground arith

  -- The rest of a group, once its first record was read.
  group_end :
      (ps recs : List Payload) (seq at off off' top : ℕ) (s s' : S) (b rest : Bytes)
      {res : Result (Scan S)}
      → All IsPlain ps
      → encode_group c seq ps ≡ some b
      → apply_all c apply (recs ++ ps) s ≡ ok s'
      → top < seq
      → off + length b ≡ off'
      → Scans c apply rest (scan 0 [] off' off' seq s') res
      → Scans c apply (b ++ rest) (scan seq recs at off top s) res
  unfolding encode_group
  group_end [] recs seq at off off' top s s' b rest plain e h lt o run =
      next (record { payload = commit; seq = seq }) (length b) rest (scan 0 [] off' off' seq s')
        (read_frame-encode c good _ b rest e)
        (close_group_lem seq recs at off off' (length b) top s s' (rw append-nil at h) lt o) run
  group_end (p ∷ ps) recs seq at off off' top s s' b rest plain e h lt o run =
      let (b1, b2, e1, e2, same) = encode_group_cases c seq p ps b e in
      rw (same, append_assoc)
        (next (record { payload = p; seq = seq }) (length b1) (b2 ++ rest)
          (scan seq (recs ++ p ∷ []) at (off + length b1) top s)
          (read_frame-encode c good _ b1 (b2 ++ rest) e1)
          (add_lem seq seq p recs at off (length b1) top s plain.0 (inl refl))
          (group_end ps (recs ++ p ∷ []) seq at (off + length b1) off' top s s' b2 rest plain.1 e2
            (rw append_assoc h) lt (omega (arith, ap length same, length-append b1 b2)) run))

  -- A whole group is read and applied.
  group_whole :
      (p : Payload) (ps : List Payload) (seq at off off' top : ℕ) (s s' : S) (b rest : Bytes)
      {res : Result (Scan S)}
      → All IsPlain (p ∷ ps)
      → encode_group c seq (p ∷ ps) ≡ some b
      → apply_all c apply (p ∷ ps) s ≡ ok s'
      → top < seq
      → off + length b ≡ off'
      → Scans c apply rest (scan 0 [] off' off' seq s') res
      → Scans c apply (b ++ rest) (scan 0 [] at off top s) res
  group_whole p ps seq at off off' top s s' b rest plain e h lt o run =
      let (b1, b2, e1, e2, same) = encode_group_cases c seq p ps b e in
      rw (same, append_assoc)
        (next (record { payload = p; seq = seq }) (length b1) (b2 ++ rest)
          (scan seq (p ∷ []) at (off + length b1) top s)
          (read_frame-encode c good _ b1 (b2 ++ rest) e1)
          (add_lem seq 0 p [] at off (length b1) top s plain.0 (inr refl))
          (group_end ps (p ∷ []) seq at (off + length b1) off' top s s' b2 rest plain.1 e2 h lt
            (omega (arith, ap length same, length-append b1 b2)) run))

  -- So are all the groups of a file.
  pub Scans-Written :
      {n : ℕ} {log : List Payload} {bs : Bytes} (s s' : S) (rest : Bytes) {res : Result (Scan S)}
      → Written c n log bs
      → apply_all c apply log s ≡ ok s'
      → Scans c apply rest (scan 0 [] (length bs) (length bs) n s') res
      → Scans c apply (bs ++ rest) (scan 0 [] 0 0 0 s) res
  unfolding apply_all
  Scans-Written s s' rest {res = res} nothing_yet h run =
      subst (λ t. Scans c apply rest (scan 0 [] 0 0 0 t) res) (sym (ok-injective c apply h)) run
  Scans-Written {bs = bs'} s s' rest
        (group {n = n} {seq = seq} {log = log} {bs = bs} p ps b w lt plain e l f) h run =
      let (t, h1, h2) = apply_all_split c apply log (p ∷ ps) s s' (rw l at h) in
      rw (f, append_assoc)
        (Scans-Written s t (b ++ rest) w h1 (
          group_whole p ps seq (length bs) (length bs) (length bs') n t s' b rest plain e h2 lt
            (sym (ap length f ∙ length-append bs b)) run))

  -- A group that was cut short changes nothing.
  Scans-cut :
      (ps recs : List Payload) (seq g k at off top : ℕ) (s : S) (b : Bytes)
      → All IsPlain ps
      → encode_group c seq ps ≡ some b
      → k < length b
      → (g ≡ seq) ⊎ (g ≡ 0)
      → (g' : ℕ) × (recs' : List Payload) × (off' : ℕ) × Scans c apply
          (take k b)
          (scan g recs at off top s)
          (ok (scan g' recs' at off' top s))
  unfolding encode_group
  Scans-cut [] recs seq g k at off top s b plain e h j =
      (g, recs, off, stop (read_frame-part c good _ b k e h) refl)
  Scans-cut (p ∷ ps) recs seq g k at off top s b plain e h j =
      let (b1, b2, e1, e2, same) = encode_group_cases c seq p ps b e in
      elim (Bool-cases (ltb k (length b1))) [
        | inl few ↦
            let missing : read_frame c (take k b) ≡ torn =
              rw (same, take_short k b1 b2 (ltb→lt _ _ few))
                (read_frame-part c good _ b1 k e1 (ltb→lt _ _ few)) in
            (g, recs, off, stop missing refl)
        | inr many ↦
            let (g', recs', off', run) =
              Scans-cut ps (recs ++ p ∷ []) seq seq (k - length b1) at (off + length b1) top s b2
                plain.1 e2 (let m = ap length same ∙ length-append b1 b2 in ground (arith, m))
                (inl refl) in
            let whole : take k b ≡ b1 ++ take (k - length b1) b2 =
              rw same (take_long k b1 b2 (ground arith)) in
            let more =
              next (record { payload = p; seq = seq }) (length b1) (take (k - length b1) b2)
                (scan seq (recs ++ p ∷ []) at (off + length b1) top s)
                (read_frame-encode c good _ b1 _ e1)
                (add_lem seq g p recs at off (length b1) top s plain.0 j) run in
            (
              g',
              recs',
              off',
              subst
                  (λ t.
                    Scans c apply t (scan g recs at off top s) (ok (scan g' recs' at off' top s)))
                  (sym whole) more,
            )
      ]

  Scans-Tail :
      (n : ℕ) (s : S) (at : ℕ) (t : Bytes)
      → Tail c t
      → (g : ℕ) × (recs : List Payload) × (off : ℕ) × Scans c apply t
          (scan 0 [] at at n s)
          (ok (scan g recs at off n s))
  unfolding read_frame
  Scans-Tail n s at t clean = (0, [], at, stop refl refl)
  Scans-Tail n s at t (cut seq ps b k plain e h f) =
      let (g, recs, off, run) = Scans-cut ps [] seq 0 k at at n s b plain e h (inr refl) in
      (
        g,
        recs,
        off,
        subst (λ u. Scans c apply u (scan 0 [] at at n s) (ok (scan g recs at off n s))) (sym f)
            run,
      )

  -- Reopening a file of committed groups, with or without a group that was cut short behind them,
  -- applies exactly the committed records in order, cuts the rest off, and goes on from the last
  -- sequence number.
  pub replay-Written :
      {n : ℕ} {log : List Payload} {bs : Bytes} (s s' : S) (t : Bytes)
      → Written c n log bs
      → Tail c t
      → apply_all c apply log s ≡ ok s'
      → replay c apply (opened (bs ++ t)) s
        ≡ some (ok (s', record { file = bs; seq = n; syncs = 0; written = 0 }))
  unfolding replay
  replay-Written {n} {log} {bs} s s' t w tail h =
      let (g, recs, off, run) = Scans-Tail n s' (length bs) t tail in
      let whole = Scans-Written s s' t w h run in
      let ends =
        replay_loop-Scans c apply (suc (length (bs ++ t))) (bs ++ t) (scan 0 [] 0 0 0 s)
          (omega arith) whole in
      rw (ends, replay) (rw take-append_self)
