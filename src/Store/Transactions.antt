-- ===== src/Store/Transactions.antt =====
-- internal/store/store.go: the store, and `Tx`, which collects records and commits them together.
pub mod Outcomes
use dev_ops_pipeline_orchest.Prelude.{
  List, Option, String, [], none, some, ◌++◌, ◌∷◌, string_eq, nat_eq,
}
use dev_ops_pipeline_orchest.Store.Rows.{Duration, Payload, Result, Time, err, ok}
use dev_ops_pipeline_orchest.Store.Index.{Index, apply_record, empty_index}
use dev_ops_pipeline_orchest.Store.Journal.{Codec, Disk, Journal, append_group, replay}

-- What the store takes from Go's library: the codec of the journal, SHA-256 in hexadecimal, and the
-- RFC 3339 text of a time.
pub record Platform : Type 0 where
  pub codec : Codec
  pub sha256_hex : String → String
  pub format_time : Time → String

-- What the world gives to one operation: the clock's reading, and what the disk does with its group.
pub record Env : Type 0 where
  pub now : Time
  pub disk : Disk

pub record Store : Type 0 where
  pub index : Index
  pub open index use *
  pub lease_ttl : Duration
  pub journal : Journal

-- `recs`, and `applyAfter`, whose functions run in order once the group is durable
pub record Tx : Type 0 where
  pub recs : List Payload
  pub apply_after : List (Index → Index)

-- Store.begin
abbrev pub begin : Tx
begin = record { recs = []; apply_after = [] }

-- Tx.add with the function that its caller appends to `applyAfter`
abbrev pub add : Payload → (Index → Index) → Tx → Tx
add p f tx = record { recs = tx.recs ++ p ∷ []; apply_after = tx.apply_after ++ f ∷ [] }

unfoldable pub run_after : List (Index → Index) → Index → Index
run_after [] i = i
run_after (f ∷ fs) i = run_after fs (f i)

unfoldable pub committed : Tx → Result (Unit {0}) × Journal → Store → Result (Unit {0}) × Store
unfolding run_after
committed tx (ok u, j) s =
    (ok u, record s { index = run_after tx.apply_after s.index; journal = j })
committed tx (err e, j) s = (err e, record s { journal = j })

-- Tx.commit: the journal first, then the index
unfoldable pub commit_tx : Platform → Env → Tx → Store → Result (Unit {0}) × Store
unfolding committed
commit_tx p env tx s = elim tx.recs [
  | [] ↦ (ok tt, s)
  | r ∷ rs ↦ committed tx (append_group p.codec env.disk (r ∷ rs) s.journal) s
]

-- A commit whose caller returns a value of its own.
abbrev pub with_value {ℓ} : {A : Type ℓ} → A → Result (Unit {0}) × Store → Result A × Store
with_value a (ok _, s) = (ok a, s)
with_value a (err e, s) = (err e, s)

-- Open: replay the journal into an empty index.
unfoldable pub open_store : Platform → Duration → Journal → Option (Result Store)
open_store p ttl j = elim (replay p.codec apply_record j empty_index) [
  | none ↦ none
  | some (err e) ↦ some (err e)
  | some (ok (i, j')) ↦ some (ok (record { index = i; lease_ttl = ttl; journal = j' }))
]
