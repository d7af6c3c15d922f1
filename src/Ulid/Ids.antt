-- ===== src/Ulid/Ids.antt =====
-- internal/ulid/ulid.go: NewAt. What crypto/rand reads is an argument, `none` where it
-- fails; the mutex makes each call one step.
use dev_ops_pipeline_orchest.Prelude.{
  Bool, Option, [], false, if◌then◌else◌, none, some, true, ℕ, ◌%◌, ◌++◌, ◌+◌, ◌/◌, ◌==◌, ◌∷◌,
  nat_eq,
}
use dev_ops_pipeline_orchest.Store.Journal.{Bytes}

-- the variables lastMS and lastRand
pub record Generator : Type 0 where
  pub last_ms : ℕ
  pub last_rand : Bytes

-- NewAt's loop from the last byte to the first; the flag says that the first one wrapped
unfoldable pub increment : Bytes → Bytes × Bool
increment [] = ([], true)
increment (b ∷ bs) =
    let r = increment bs in
    if r.1 then ((b + 1) % 256 ∷ r.0, (b + 1) % 256 == 0) else (b ∷ r.0, false)

-- the entropy of a millisecond that had an id before
unfoldable pub next_rand : Option Bytes → Bytes → Bytes
next_rand draw last =
    let r = increment last in if r.1 then elim draw [ some fresh ↦ fresh | none ↦ r.0 ] else r.0

abbrev pub time_bytes : ℕ → Bytes
time_bytes ms =
    ms / 1099511627776 % 256
    ∷ ms / 4294967296 % 256
    ∷ ms / 16777216 % 256
    ∷ ms / 65536 % 256
    ∷ ms / 256 % 256
    ∷ ms % 256
    ∷ []

-- ID
abbrev pub id_of : Generator → Bytes
id_of g = time_bytes g.last_ms ++ g.last_rand

-- NewAt on the milliseconds of the time; `none` is the panic
unfoldable pub new_at : ℕ → Option Bytes → Generator → Option Generator
new_at ms draw g =
    if ms == g.last_ms
    then some (record { last_ms = ms; last_rand = next_rand draw g.last_rand })
    else elim draw [ some fresh ↦ some (record { last_ms = ms; last_rand = fresh }) | none ↦ none ]
