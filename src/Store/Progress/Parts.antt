-- ===== src/Store/Progress/Parts.antt =====
-- The parts of the index, and what each kind of change keeps of them.
use dev_ops_pipeline_orchest.Prelude.{
  Bool-cases, List, Map, String, [], ap, append-nil, append_assoc, arith, eq_iff, if◌then◌else◌,
  inl, inr, insert, lookup, lookup-insert, none, refl, some, subst, sym, true, ℕ, ◌++◌, ◌==◌, ◌∙◌,
  ◌∷◌, ◌≡◌, ◌≤◌, string_eq, nat_eq,
}
use dev_ops_pipeline_orchest.Store.State.{State}
use dev_ops_pipeline_orchest.Store.State.Paths.{History, here, move}
use dev_ops_pipeline_orchest.Store.Rows.{AuditEntry, Deployment, Lease, OutboxEntry, delivered}
use dev_ops_pipeline_orchest.Store.Transactions.{Platform}
use dev_ops_pipeline_orchest.Store.Audit.{audit_hash}
use dev_ops_pipeline_orchest.Store.Outbox.{find_entry, set_entry}

-- The last token that was given out for a resource.
unfoldable pub fence_of : String → Map Lease → ℕ
fence_of r m = elim (lookup r m) [ none ↦ 0 | some l ↦ l.fence_token ]

abbrev pub Fences : Map Lease → Map Lease → Type 0
Fences m m' = (r : String) → fence_of r m ≤ fence_of r m'

pub Fences-refl : (m : Map Lease) → Fences m m
Fences-refl m r = omega arith

pub Fences-insert :
    (r : String) (l : Lease) (m : Map Lease)
    → fence_of r m ≤ l.fence_token
    → Fences m (insert r l m)
unfolding fence_of
Fences-insert r l m h j = ground (arith, lookup-insert r j l m, eq_iff r j)

-- A row stays under its key, with the key as its id if it was that before, and its state moves along
-- legal transitions.
abbrev pub Stays : String → Deployment → Deployment → Type 0
Stays k d d' = (d.id ≡ k → d'.id ≡ k) × (ts : List State) × History d.state ts d'.state

abbrev pub Rows : Map Deployment → Map Deployment → Type 0
Rows m m' =
    (id : String) (d : Deployment)
    → lookup id m ≡ some d
    → (d' : Deployment) × (lookup id m' ≡ some d') × Stays id d d'

pub Rows-refl : (m : Map Deployment) → Rows m m
Rows-refl m id d e = (d, e, (λ h. h, [], here))

pub Rows-insert :
    (k : String) (x : Deployment) (m : Map Deployment)
    → ((d : Deployment) → lookup k m ≡ some d → Stays k d x)
    → Rows m (insert k x m)
Rows-insert k x m h id d e = elim (Bool-cases (k == id)) [
  | inl q ↦
      let same : k ≡ id = (eq_iff k id).0 q in
      (x, ground (arith, lookup-insert k id x m), subst (λ j. Stays j d x) same (h d (rw same e)))
  | inr q ↦ (d, ground (arith, lookup-insert k id x m), (λ i. i, [], here))
]

-- A key keeps the row that it was first given.
abbrev pub Keys : Map String → Map String → Type 0
Keys m m' = (k id : String) → lookup k m ≡ some id → lookup k m' ≡ some id

pub Keys-refl : (m : Map String) → Keys m m
Keys-refl m k id e = e

pub Keys-insert : (k id : String) (m : Map String) → lookup k m ≡ none → Keys m (insert k id m)
Keys-insert k id m h j x e = ground (arith, lookup-insert k j id m, eq_iff k j)

-- `Linked p prev es head`: every entry carries the hash of the one before and of itself.
pub data Linked (p : Platform) : String → List AuditEntry → String → Type 0 where
  chain_end : {h : String} → Linked p h [] h
  link :
      {prev head : String} {es : List AuditEntry} (e : AuditEntry)
      → e.prev_hash ≡ prev
      → e.hash ≡ audit_hash p prev e
      → Linked p e.hash es head
      → Linked p prev (e ∷ es) head

pub Linked-append :
    (p : Platform) {prev mid head : String} {es fs : List AuditEntry}
    → Linked p prev es mid
    → Linked p mid fs head
    → Linked p prev (es ++ fs) head
Linked-append p chain_end k = k
Linked-append p (link e a b rest) k = link e a b (Linked-append p rest k)

-- The audit log grows at its end, by entries that are chained to its head.
pub record Log (p : Platform) (a b : List AuditEntry × String) : Type 0 where
  pub added : List AuditEntry
  pub grown : b.0 ≡ a.0 ++ added
  pub linked : Linked p a.1 added b.1

pub Log-refl : (p : Platform) (a : List AuditEntry × String) → Log p a a
Log-refl p a = record { added = []; grown = sym (append-nil a.0); linked = chain_end }

pub Log-trans :
    (p : Platform) (a b c : List AuditEntry × String) → Log p a b → Log p b c → Log p a c
Log-trans p a b c h k = record {
  added = h.added ++ k.added;
  grown = k.grown ∙ ap (λ es. es ++ k.added) h.grown ∙ append_assoc a.0 h.added k.added;
  linked = Linked-append p h.linked k.linked;
}

-- A note stays with its payload, and stays delivered once it is.
abbrev pub Kept : OutboxEntry → OutboxEntry → Type 0
Kept e e' =
    (e'.payload ≡ e.payload)
    × (e'.notifier ≡ e.notifier)
    × (e'.dedupe_key ≡ e.dedupe_key)
    × (delivered e ≡ true → delivered e' ≡ true)

abbrev pub Notes : List OutboxEntry → List OutboxEntry → Type 0
Notes es es' =
    (id : ℕ) (e : OutboxEntry)
    → find_entry id es ≡ some e
    → (e' : OutboxEntry) × (find_entry id es' ≡ some e') × Kept e e'

pub Notes-refl : (es : List OutboxEntry) → Notes es es
Notes-refl es id e h = (e, h, (refl, refl, refl, λ d. d))

find_entry-append :
    (id : ℕ) (es fs : List OutboxEntry) (e : OutboxEntry)
    → find_entry id es ≡ some e
    → find_entry id (es ++ fs) ≡ some e
unfolding find_entry
find_entry-append id [] fs e h = cc
find_entry-append id (x ∷ es) fs e h = ground (arith, find_entry-append id es fs e)

pub Notes-append : (es fs : List OutboxEntry) → Notes es (es ++ fs)
Notes-append es fs id e h = (e, find_entry-append id es fs e h, (refl, refl, refl, λ d. d))

pub find_entry-set_entry :
    (id : ℕ) (x : OutboxEntry) (es : List OutboxEntry)
    → find_entry id (set_entry x es) ≡ (
        if x.id == id
        then elim (find_entry id es) [ none ↦ none | some _ ↦ some x ]
        else find_entry id es)
unfolding find_entry set_entry
find_entry-set_entry id x [] = ground arith
find_entry-set_entry id x (y ∷ es) = ground (arith, find_entry-set_entry id x es)

pub Notes-set_entry :
    (x o : OutboxEntry) (es : List OutboxEntry)
    → find_entry x.id es ≡ some o
    → Kept o x
    → Notes es (set_entry x es)
Notes-set_entry x o es f k id e h = elim (Bool-cases (x.id == id)) [
  | inl q ↦
      let same : x.id ≡ id = ground arith in
      let val : o ≡ e = ground (arith, f, h, same) in
      (x, ground (arith, find_entry-set_entry id x es), subst (λ y. Kept y x) val k)
  | inr q ↦ (e, ground (arith, find_entry-set_entry id x es), (refl, refl, refl, λ d. d))
]

History-trans :
    {s t u : State} {ts us : List State} → History s ts t → History t us u → History s (ts ++ us) u
History-trans here k = k
History-trans (move m h) k = move m (History-trans h k)

pub Rows-trans : (a b c : Map Deployment) → Rows a b → Rows b c → Rows a c
Rows-trans a b c h k id d e =
    let (d1, e1, (i1, ts, h1)) = h id d e in
    let (d2, e2, (i2, us, h2)) = k id d1 e1 in
    (d2, e2, (λ i. i2 (i1 i), ts ++ us, History-trans h1 h2))

pub Notes-trans : (a b c : List OutboxEntry) → Notes a b → Notes b c → Notes a c
Notes-trans a b c h k id e q =
    let (e1, q1, (p1, n1, d1, f1)) = h id e q in
    let (e2, q2, (p2, n2, d2, f2)) = k id e1 q1 in
    (e2, q2, (p2 ∙ p1, n2 ∙ n1, d2 ∙ d1, λ x. f2 (f1 x)))
