-- ===== src/Redact/Chunks.antt =====
-- What reaches the inner writer, and what is held back.
use dev_ops_pipeline_orchest.Prelude.{
  All, Bool, Bool-cases, List, Option-cases, [], ap, append-nil, append_assoc, arith, drop, false,
  inl, inr, length, ltb, map, none, refl, some, subst, suc, sym, take, take-append-drop, true, zero,
  ℕ, ◌++◌, ◌+◌, ◌-◌, ◌==◌, ◌∙◌, ◌∷◌, ◌≡◌, ◌≤◌, ◌⊎◌, nat_eq,
}
use dev_ops_pipeline_orchest.Store.Journal.{Bytes}
use dev_ops_pipeline_orchest.Redact.Writer.{
  Redactor, cut_at, joined, last_index, max_hold, newline, scrub, send, write, write_all,
}

unfoldable pub ends_line : Bytes → Bool
ends_line [] = false
ends_line (x ∷ []) = x == newline
ends_line (x ∷ y ∷ ys) = ends_line (y ∷ ys)

-- A chunk that cannot have cut a line in two, unless the line is as long as what is held at most.
abbrev pub Whole : Bytes → Type 0
Whole c = (ends_line c ≡ true) ⊎ (max_hold ≤ length c)

ends_line-cons : (x : ℕ) (ys : Bytes) → ends_line ys ≡ true → ends_line (x ∷ ys) ≡ true
unfolding ends_line
ends_line-cons x [] h = absurd (ground arith)
ends_line-cons x (y ∷ ys) h = h

ends_line-append : (xs ys : Bytes) → ends_line ys ≡ true → ends_line (xs ++ ys) ≡ true
ends_line-append [] ys h = h
ends_line-append (x ∷ xs) ys h = ends_line-cons x (xs ++ ys) (ends_line-append xs ys h)

take-nil : (b : ℕ) → take {A = ℕ} b [] ≡ []
take-nil zero = refl
take-nil (suc b) = refl

take_add : (a b : ℕ) (xs : Bytes) → take (a + b) xs ≡ take a xs ++ take b (drop a xs)
take_add zero b xs = ap (λ n. take n xs) (omega arith)
take_add (suc a) b [] = take-nil (suc a + b) ∙ sym (take-nil b)
take_add (suc a) b (x ∷ xs) =
    let shift : suc a + b ≡ suc (a + b) = omega arith in
    ap (λ n. take n (x ∷ xs)) shift ∙ ap (◌∷◌ x) (take_add a b xs)

take-length : (xs : Bytes) → take (length xs) xs ≡ xs
take-length [] = refl
take-length (x ∷ xs) = ap (◌∷◌ x) (take-length xs)

last_index-take :
    (xs : Bytes) (i : ℕ)
    → last_index newline xs ≡ some i
    → (ends_line (take (suc i) xs) ≡ true) × (suc i ≤ length xs)
unfolding last_index ends_line
last_index-take [] i h = absurd (ground arith)
last_index-take (x ∷ xs) i h = elim (Option-cases (last_index newline xs)) [
  | inr (j, e) ↦
      let k = last_index-take xs j e in
      let same : suc j ≡ i = ground arith in
      rw (← same) (ends_line-cons x (take (suc j) xs) k.0, omega (arith, k.1))
  | inl e ↦
      let same : 0 ≡ i = ground arith in
      let hit : (x == newline) ≡ true = ground arith in rw (← same) (hit, omega arith)
]

-- Write cuts behind a line, or sends what is as long as it may hold.
cut_at-Whole : (buf : Bytes) (n : ℕ) → cut_at buf ≡ some n → Whole (take n buf)
unfolding cut_at
cut_at-Whole buf n h = elim (Bool-cases (ltb max_hold (length buf))) [
  | inl big ↦ elim (Option-cases (last_index newline (drop (length buf - max_hold) buf))) [
    | inr (i, e) ↦
        let same : length buf - max_hold + suc i ≡ n = ground arith in
        let k = last_index-take (drop (length buf - max_hold) buf) i e in
        inl (
          rw (← same) (
            subst (λ c. ends_line c ≡ true) (sym (take_add (length buf - max_hold) (suc i) buf))
              (ends_line-append (take (length buf - max_hold) buf) _ k.0)))
    | inl e ↦
        let same : length buf ≡ n = ground arith in
        inr (rw (← same) (subst (λ c. max_hold ≤ length c) (sym (take-length buf)) (ground arith)))
  ]
  | inr small ↦ elim (Option-cases (last_index newline buf)) [
    | inr (i, e) ↦
        let k = last_index-take buf i e in
        let same : suc i ≡ n = ground (arith, k.1) in inl (rw (← same) k.0)
    | inl e ↦
        let same : length buf ≡ n = ground arith in
        inr (rw (← same) (subst (λ c. max_hold ≤ length c) (sym (take-length buf)) (ground arith)))
  ]
]

-- Writes that lead from `r` to `r'`.
pub record Written (ws : List Bytes) (r r' : Redactor) : Type 0 where
  pub chunks : List Bytes
  pub text : joined chunks ++ r'.held ≡ r.held ++ joined ws
  pub scrubbed : r'.sent ≡ r.sent ++ map (λ c. (scrub r c).0) chunks
  pub whole : All Whole chunks

write-holds :
    (p : Bytes) (r : Redactor)
    → cut_at (r.held ++ p) ≡ none
    → write p r ≡ record r { held = r.held ++ p }
unfolding write
write-holds p r e = rw (e, write) refl

write-sends :
    (p : Bytes) (r : Redactor) (n : ℕ)
    → cut_at (r.held ++ p) ≡ some n
    → write p r ≡ send (take n (r.held ++ p)) (record r { held = drop n (r.held ++ p) })
unfolding write
write-sends p r n e = rw (e, write) refl

-- Whatever is written, in whatever pieces: the chunks that the inner writer was given, before they
-- were scrubbed, and what is held back are together the text that was written; each chunk was
-- scrubbed as a whole; and each ends with a line, or is at least as long as what is held at most.
pub write_all-Written : (ws : List Bytes) (r : Redactor) → Written ws r (write_all ws r)
unfolding write_all joined send scrub
write_all-Written [] r = record {
  chunks = [];
  text = sym (append-nil r.held);
  scrubbed = sym (append-nil r.sent);
  whole = tt;
}
write_all-Written (p ∷ ws) r = elim (Option-cases (cut_at (r.held ++ p))) [
  | inl e ↦
      let y = write_all-Written ws (record r { held = r.held ++ p }) in
      rw (write-holds p r e) (record {
        chunks = y.chunks;
        text = y.text ∙ append_assoc r.held p (joined ws);
        scrubbed = y.scrubbed;
        whole = y.whole;
      })
  | inr (n, e) ↦
      let buf = r.held ++ p in
      let y = write_all-Written ws (send (take n buf) (record r { held = drop n buf })) in
      rw (write-sends p r n e) (record {
        chunks = take n buf ∷ y.chunks;
        text =
            append_assoc (take n buf) (joined y.chunks) _
            ∙ (ap (◌++◌ (take n buf)) y.text
                ∙ (sym (append_assoc (take n buf) (drop n buf) (joined ws))
                    ∙ (ap (λ (b : Bytes). b ++ joined ws) (take-append-drop n buf)
                        ∙ append_assoc r.held p (joined ws))));
        scrubbed = y.scrubbed ∙ append_assoc r.sent _ _;
        whole = (cut_at-Whole buf n e, y.whole);
      })
]
