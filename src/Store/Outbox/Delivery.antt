-- ===== src/Store/Outbox/Delivery.antt =====
-- When notes are due, and how long a failed one waits.
use dev_ops_pipeline_orchest.Prelude.{
  Bool, Bool-cases, List, [], ap, arith, false, if◌then◌else◌, inl, inr, leb, ltb, none, not, refl,
  some, suc, take, true, zero, ℕ, ◌&&◌, ◌*◌, ◌==◌, ◌^◌, ◌||◌, ◌∷◌, ◌≡◌, ◌≤◌, string_eq, nat_eq,
}
use dev_ops_pipeline_orchest.Store.Rows.{OutboxEntry, Time, delivered, second}
use dev_ops_pipeline_orchest.Store.Transactions.{Env, Store}
use dev_ops_pipeline_orchest.Store.Outbox.{backoff, due_from, due_outbox}

-- The wait before a try doubles with each failure from one second on, and from the eighth failure on
-- it stays at 256 seconds, for any number of failures: the arithmetic on 64 bits never wraps, and the
-- cap of five minutes is never met.
pub backoff_lem :
    (n : ℕ) → (n ≤ 8 → backoff n ≡ 2 ^ n * second) × (8 ≤ n → backoff n ≡ 256 * second)
unfolding backoff
backoff_lem zero = (λ h. omega arith, λ h. omega arith)
backoff_lem (suc zero) = (λ h. omega arith, λ h. omega arith)
backoff_lem (suc (suc zero)) = (λ h. omega arith, λ h. omega arith)
backoff_lem (suc (suc (suc zero))) = (λ h. omega arith, λ h. omega arith)
backoff_lem (suc (suc (suc (suc zero)))) = (λ h. omega arith, λ h. omega arith)
backoff_lem (suc (suc (suc (suc (suc zero))))) = (λ h. omega arith, λ h. omega arith)
backoff_lem (suc (suc (suc (suc (suc (suc zero)))))) = (λ h. omega arith, λ h. omega arith)
backoff_lem (suc (suc (suc (suc (suc (suc (suc zero))))))) = (λ h. omega arith, λ h. omega arith)
backoff_lem (suc (suc (suc (suc (suc (suc (suc (suc zero)))))))) =
    (λ h. omega arith, λ h. omega arith)
backoff_lem (suc (suc (suc (suc (suc (suc (suc (suc (suc n))))))))) =
    (λ h. absurd (omega arith), λ h. ground arith)

-- The entries that are neither delivered nor put off.
abbrev pub is_due : Time → OutboxEntry → Bool
is_due now e = not (delivered e) && leb e.next_attempt now

unfoldable pub due_only : Time → List OutboxEntry → List OutboxEntry
due_only now [] = []
due_only now (e ∷ es) = let rest = due_only now es in if is_due now e then e ∷ rest else rest

due_from-none : (now : Time) (es : List OutboxEntry) → due_from now none es ≡ due_only now es
unfolding due_from due_only
due_from-none now [] = refl
due_from-none now (e ∷ es) = ground (arith, due_from-none now es)

due_from-some :
    (now : Time) (n : ℕ) (es : List OutboxEntry)
    → due_from now (some n) es ≡ take n (due_only now es)
unfolding due_from due_only
due_from-some now zero es = refl
due_from-some now (suc n) [] = refl
due_from-some now (suc n) (e ∷ es) = elim (Bool-cases (is_due now e)) [
  | inl d ↦
      let due : (delivered e || ltb now e.next_attempt) ≡ false = ground arith in
      rw d (rw due (ap (◌∷◌ e) (due_from-some now n es)))
  | inr d ↦
      let later : (delivered e || ltb now e.next_attempt) ≡ true = ground arith in
      rw d (rw later (due_from-some now (suc n) es))
]

-- DueOutbox gives the entries that are due, in the order of the queue: all of them without a limit,
-- else the first ones up to the limit.
pub due_outbox_lem :
    (env : Env) (limit : ℕ) (s : Store)
    → due_outbox env limit s
      ≡ (if limit == 0 then due_only env.now s.outbox else take limit (due_only env.now s.outbox))
unfolding due_outbox
due_outbox_lem env limit s =
    ground (arith, due_from-none env.now s.outbox, due_from-some env.now limit s.outbox)
