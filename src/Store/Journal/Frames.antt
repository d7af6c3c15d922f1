-- ===== src/Store/Journal/Frames.antt =====
-- One record in the file: what `read_frame` finds where a record was written, and where only a part
-- of it was.
use dev_ops_pipeline_orchest.Prelude.{
  Option-cases, [], ap, arith, drop-append_self, inl, inr, length, nat_beq_iff, refl, some, suc,
  take, take-append_self, zero, ℕ, ◌%◌, ◌++◌, ◌+◌, ◌-◌, ◌/◌, ◌<◌, ◌∙◌, ◌∷◌, ◌≡◌, ◌≤◌, nat_eq,
}
use dev_ops_pipeline_orchest.Store.Rows.{Record}
use dev_ops_pipeline_orchest.Store.Journal.{
  Bytes, Codec, IsCodec, be32, encode_record, frame, header_size, magic, of_be32, read_frame,
  read_payload, torn,
}

be32_round_trip :
    (n : ℕ)
    → n < 4294967296
    → of_be32 (n / 16777216 % 256) (n / 65536 % 256) (n / 256 % 256) (n % 256) ≡ n
be32_round_trip n h = omega arith

pub take_short : (k : ℕ) (xs ys : Bytes) → k < length xs → take k (xs ++ ys) ≡ take k xs
take_short k [] ys h = elim h [ ]
take_short zero (x ∷ xs) ys h = refl
take_short (suc k) (x ∷ xs) ys h = ap (◌∷◌ x) (take_short k xs ys (omega arith))

pub take_long :
    (k : ℕ) (xs ys : Bytes) → length xs ≤ k → take k (xs ++ ys) ≡ xs ++ take (k - length xs) ys
take_long k [] ys h = let e : k - 0 ≡ k = omega arith in rw e
take_long zero (x ∷ xs) ys h = elim h [ ]
take_long (suc k) (x ∷ xs) ys h =
    let e : suc k - suc (length xs) ≡ k - length xs = omega arith in
    rw e (ap (◌∷◌ x) (take_long k xs ys (omega arith)))

pub length-take : (k : ℕ) (xs : Bytes) → k < length xs → length (take k xs) ≡ k
length-take zero xs h = refl
length-take (suc k) [] h = elim h [ ]
length-take (suc k) (x ∷ xs) h = ap suc (length-take k xs (omega arith))

take-take : (k n : ℕ) (xs : Bytes) → k < n → take n (take k xs) ≡ take k xs
take-take zero zero xs h = refl
take-take zero (suc n) xs h = refl
take-take (suc k) zero xs h = elim h [ ]
take-take (suc k) (suc n) [] h = refl
take-take (suc k) (suc n) (x ∷ xs) h = ap (◌∷◌ x) (take-take k n xs (omega arith))

module _ (c : Codec) (good : IsCodec c) where
  -- A payload that is there whole is read.
  read_payload_whole :
      (r : Record) (p rest : Bytes)
      → c.marshal r ≡ some p
      → read_payload c (length p) (c.crc32 p) (p ++ rest) ≡ frame r (header_size + length p) rest
  unfolding read_payload
  read_payload_whole r p rest e = ground (
    arith,
    take-append_self p rest,
    drop-append_self p rest,
    good.round_trip r p e,
    nat_beq_iff (c.crc32 p) (c.crc32 p),
  )

  -- The bytes of a record.
  abbrev pub image : Bytes → Bytes
  image p = magic ++ (be32 (length p) ++ (be32 (c.crc32 p) ++ p))

  pub encode_cases :
      (r : Record) (b : Bytes)
      → encode_record c r ≡ some b
      → (p : Bytes) × (c.marshal r ≡ some p) × (b ≡ image p)
  unfolding encode_record
  encode_cases r b e = elim (Option-cases (c.marshal r)) [
    | inl q ↦ ground (arith, q)
    | inr (p, q) ↦ (p, q, ground (arith, q))
  ]

  read_image :
      (r : Record) (p rest : Bytes)
      → c.marshal r ≡ some p
      → read_frame c (image p ++ rest) ≡ frame r (header_size + length p) rest
  unfolding read_frame
  read_image r p rest e =
      rw
        (
          be32_round_trip (length p) (good.short r p e),
          be32_round_trip (c.crc32 p) (good.crc_bound p),
        )
        (read_payload_whole r p rest e)

  -- A record that was written is read back, and the reader stands behind it.
  pub read_frame-encode :
      (r : Record) (b rest : Bytes)
      → encode_record c r ≡ some b
      → read_frame c (b ++ rest) ≡ frame r (length b) rest
  read_frame-encode r b rest e =
      let (p, q, same) = encode_cases r b e in
      rw same (read_image r p rest q ∙ ap (λ n. frame r n rest) (omega arith))

  -- Of a payload that is not there whole nothing is read.
  read_payload_part :
      (n k : ℕ) (want : ℕ) (p : Bytes)
      → length p ≡ n
      → k < n
      → read_payload c n want (take k p) ≡ torn
  unfolding read_payload
  read_payload_part n k want p e h =
      rw (take-take k n p h) (ground (arith, length-take k p (omega arith)))

  read_image_part :
      (r : Record) (p : Bytes) (k : ℕ)
      → c.marshal r ≡ some p
      → k < header_size + length p
      → read_frame c (take k (image p)) ≡ torn
  unfolding read_frame
  read_image_part r p zero e h = refl
  read_image_part r p (suc zero) e h = refl
  read_image_part r p (suc (suc zero)) e h = refl
  read_image_part r p (suc (suc (suc zero))) e h = refl
  read_image_part r p (suc (suc (suc (suc zero)))) e h = refl
  read_image_part r p (suc (suc (suc (suc (suc zero))))) e h = refl
  read_image_part r p (suc (suc (suc (suc (suc (suc zero)))))) e h = refl
  read_image_part r p (suc (suc (suc (suc (suc (suc (suc zero))))))) e h = refl
  read_image_part r p (suc (suc (suc (suc (suc (suc (suc (suc zero)))))))) e h = refl
  read_image_part r p (suc (suc (suc (suc (suc (suc (suc (suc (suc zero))))))))) e h = refl
  read_image_part r p (suc (suc (suc (suc (suc (suc (suc (suc (suc (suc zero)))))))))) e h = refl
  read_image_part r p (suc (suc (suc (suc (suc (suc (suc (suc (suc (suc (suc zero))))))))))) e h =
      refl
  read_image_part r p (suc (suc (suc (suc (suc (suc (suc (suc (suc (suc (suc (suc k)))))))))))) e
        h =
      rw (be32_round_trip (length p) (good.short r p e))
        (read_payload_part (length p) k _ p refl (omega arith))

  -- A record that was cut short is a torn end.
  pub read_frame-part :
      (r : Record) (b : Bytes) (k : ℕ)
      → encode_record c r ≡ some b
      → k < length b
      → read_frame c (take k b) ≡ torn
  read_frame-part r b k e h =
      let (p, q, same) = encode_cases r b e in
      rw same (
        read_image_part r p k q
          (let m : length b ≡ header_size + length p = ap length same ∙ omega arith in omega arith))
