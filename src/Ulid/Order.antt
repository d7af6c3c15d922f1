-- ===== src/Ulid/Order.antt =====
-- Ids grow with each call.
use dev_ops_pipeline_orchest.Prelude.{
  All, Bool-cases, Option, [], ap, arith, false, inl, inr, length, none, refl, some, suc, sym, true,
  ℕ, ◌%◌, ◌*◌, ◌++◌, ◌+◌, ◌<◌, ◌==◌, ◌∙◌, ◌∷◌, ◌≡◌, ◌≤◌, nat_eq,
}
use dev_ops_pipeline_orchest.Store.Journal.{Bytes}
use dev_ops_pipeline_orchest.Ulid.Ids.{Generator, id_of, increment, new_at, next_rand, time_bytes}

-- The number that bytes stand for, the most significant first, behind `acc`.
unfoldable pub value : ℕ → Bytes → ℕ
value acc [] = acc
value acc (b ∷ bs) = value (acc * 256 + b) bs

abbrev pub AreBytes : ℕ → Bytes → Type 0
AreBytes n bs = (length bs ≡ n) × All (λ b. b < 256) bs

value-append : (acc : ℕ) (xs ys : Bytes) → value acc (xs ++ ys) ≡ value (value acc xs) ys
unfolding value
value-append acc [] ys = refl
value-append acc (x ∷ xs) ys = value-append (acc * 256 + x) xs ys

value-time_bytes : (ms : ℕ) → ms < 281474976710656 → value 0 (time_bytes ms) ≡ ms
unfolding value
value-time_bytes ms h = omega arith

value_mono :
    (acc acc' : ℕ) (xs ys : Bytes)
    → acc < acc'
    → length xs ≡ length ys
    → All (λ b. b < 256) xs
    → value acc xs < value acc' ys
unfolding value
value_mono acc acc' [] [] h l a = h
value_mono acc acc' [] (y ∷ ys) h l a = absurd (omega (arith, l))
value_mono acc acc' (x ∷ xs) [] h l a = absurd (omega (arith, l))
value_mono acc acc' (x ∷ xs) (y ∷ ys) h l a =
    value_mono (acc * 256 + x) (acc' * 256 + y) xs ys (omega (arith, a.0)) (omega (arith, l)) a.1

increment-nil : increment [] ≡ ([], true)
unfolding increment
increment-nil = refl

increment-carry :
    (b : ℕ) (bs : Bytes)
    → (increment bs).1 ≡ true
    → increment (b ∷ bs) ≡ ((b + 1) % 256 ∷ (increment bs).0, (b + 1) % 256 == 0)
unfolding increment
increment-carry b bs h = rw h refl

increment-calm :
    (b : ℕ) (bs : Bytes)
    → (increment bs).1 ≡ false
    → increment (b ∷ bs) ≡ (b ∷ (increment bs).0, false)
unfolding increment
increment-calm b bs h = rw h refl

value-increment :
    (acc : ℕ) (bs : Bytes)
    → All (λ b. b < 256) bs
    → ((increment bs).1 ≡ false → value acc (increment bs).0 ≡ suc (value acc bs))
      × ((increment bs).1 ≡ true → value (suc acc) (increment bs).0 ≡ suc (value acc bs))
unfolding value
value-increment acc [] a = rw increment-nil (λ h. absurd (ground arith), λ h. refl)
value-increment acc (b ∷ bs) a = elim (Bool-cases (increment bs).1) [
  | inl carry ↦
      let up = (value-increment (acc * 256 + b) bs a.1).1 carry in
      let step = increment-carry b bs carry in
      rw step (
        λ h.
            let n : acc * 256 + (b + 1) % 256 ≡ suc (acc * 256 + b) = ground (arith, a.0, h) in
            ap (λ k. value k (increment bs).0) n ∙ up,
        λ h.
            let n : suc acc * 256 + (b + 1) % 256 ≡ suc (acc * 256 + b) = ground (arith, a.0, h) in
            ap (λ k. value k (increment bs).0) n ∙ up,
      )
  | inr calm ↦
      let up = (value-increment (acc * 256 + b) bs a.1).0 calm in
      rw (increment-calm b bs calm) (λ h. up, λ h. absurd (ground arith))
]

increment-AreBytes : (n : ℕ) (bs : Bytes) → AreBytes n bs → AreBytes n (increment bs).0
unfolding increment
increment-AreBytes n [] r = r
increment-AreBytes n (b ∷ bs) r =
    let below = increment-AreBytes (length bs) bs (refl, r.1.1) in
    elim (Bool-cases (increment bs).1) [
      | inl carry ↦ rw carry (ap suc below.0 ∙ r.0, (omega arith, below.1))
      | inr calm ↦ rw calm (ap suc below.0 ∙ r.0, (r.1.0, below.1))
    ]

value-id_of :
    (g : Generator) → g.last_ms < 281474976710656 → value 0 (id_of g) ≡ value g.last_ms g.last_rand
value-id_of g h =
    value-append 0 (time_bytes g.last_ms) g.last_rand
    ∙ ap (λ n. value n g.last_rand) (value-time_bytes g.last_ms h)

new_at-same :
    (ms : ℕ) (draw : Option Bytes) (g g' : Generator)
    → (ms == g.last_ms) ≡ true
    → (increment g.last_rand).1 ≡ false
    → new_at ms draw g ≡ some g'
    → (g'.last_rand ≡ (increment g.last_rand).0) × (g'.last_ms ≡ g.last_ms)
unfolding new_at next_rand
new_at-same ms draw g g' h room e = ground arith

new_at-other :
    (ms : ℕ) (draw : Option Bytes) (g g' : Generator)
    → (ms == g.last_ms) ≡ false
    → new_at ms draw g ≡ some g'
    → (draw ≡ some g'.last_rand) × (g'.last_ms ≡ ms)
unfolding new_at
new_at-other ms none g g' h e = ground arith
new_at-other ms (some fresh) g g' h e = ground arith

-- An id that is created no earlier than the last one, by a generator whose bytes do not run over,
-- is a greater number of 128 bits than the last one, and the entropy has ten bytes again where
-- what crypto/rand reads has ten. Times are below 2^48 milliseconds.
pub new_at_grows :
    (ms : ℕ) (draw : Option Bytes) (g g' : Generator)
    → AreBytes 10 g.last_rand
    → ((fresh : Bytes) → draw ≡ some fresh → AreBytes 10 fresh)
    → g.last_ms ≤ ms
    → ms < 281474976710656
    → (increment g.last_rand).1 ≡ false
    → new_at ms draw g ≡ some g'
    → (value 0 (id_of g) < value 0 (id_of g')) × AreBytes 10 g'.last_rand
new_at_grows ms draw g g' r f le top room e = elim (Bool-cases (ms == g.last_ms)) [
  | inl same ↦
      let k = new_at-same ms draw g g' same room e in
      let more = (value-increment g.last_ms g.last_rand r.1).0 room in
      (
        rw (value-id_of g (omega arith), value-id_of g' (omega (arith, k.1)), k.0, k.1)
            (omega (arith, more)),
        rw k.0 (increment-AreBytes 10 g.last_rand r),
      )
  | inr other ↦
      let k = new_at-other ms draw g g' other e in
      let fresh = f g'.last_rand k.0 in
      (
        rw (value-id_of g (omega arith), value-id_of g' (omega (arith, k.1)))
            (value_mono g.last_ms g'.last_ms g.last_rand g'.last_rand (ground (arith, k.1))
              (r.0 ∙ sym fresh.0) r.1),
        fresh,
      )
]
