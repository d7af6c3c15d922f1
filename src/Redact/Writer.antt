-- ===== src/Redact/Writer.antt =====
-- internal/redact/redact.go: the redactor, over bytes. A compiled pattern is the function that
-- replaces its matches and counts them; the mutex makes each call one step.
use dev_ops_pipeline_orchest.Prelude.{
  Bool, List, Option, [], drop, false, if◌then◌else◌, leb, length, ltb, none, some, suc, take, true,
  zero, ℕ, ◌&&◌, ◌++◌, ◌+◌, ◌-◌, ◌==◌, ◌∷◌, nat_eq,
}
use dev_ops_pipeline_orchest.Store.Journal.{Bytes}

-- Placeholder: "[REDACTED]"
abbrev pub placeholder : Bytes
placeholder = 91 ∷ 82 ∷ 69 ∷ 68 ∷ 65 ∷ 67 ∷ 84 ∷ 69 ∷ 68 ∷ 93 ∷ []

-- maxHold
abbrev pub max_hold : ℕ
max_hold = 4096

abbrev pub newline : ℕ
newline = 10

abbrev pub Pattern : Type 0
Pattern = Bytes → Bytes × ℕ

-- Redactor; `sent` is what the inner writer was given, in order
pub record Redactor : Type 0 where
  pub literals : List Bytes
  pub patterns : List Pattern
  pub held : Bytes
  pub hits : ℕ
  pub sent : List Bytes

-- New's filter
unfoldable pub long_enough : List Bytes → List Bytes
long_enough [] = []
long_enough (l ∷ ls) = let rest = long_enough ls in if leb 6 (length l) then l ∷ rest else rest

-- New
abbrev pub new_redactor : List Pattern → List Bytes → Redactor
new_redactor standard literals = record {
  literals = long_enough literals;
  patterns = standard;
  held = [];
  hits = 0;
  sent = [];
}

-- WithPatterns
abbrev pub with_patterns : List Pattern → Redactor → Redactor
with_patterns ps r = record r { patterns = ps }

-- bytes.LastIndexByte
unfoldable pub last_index : ℕ → Bytes → Option ℕ
last_index c [] = none
last_index c (x ∷ xs) = elim (last_index c xs) [
  | some i ↦ some (suc i)
  | none ↦ if x == c then some 0 else none
]

unfoldable pub starts_with : Bytes → Bytes → Bool
starts_with [] xs = true
starts_with (c ∷ cs) [] = false
starts_with (c ∷ cs) (x ∷ xs) = let rest = starts_with cs xs in c == x && rest

-- bytes.ReplaceAll with the placeholder, and bytes.Count, of a literal that is not empty; `skip` is
-- what is left of a match
unfoldable pub replace_all : Bytes → ℕ → Bytes → Bytes × ℕ
replace_all lit skip [] = ([], 0)
replace_all lit (suc skip) (x ∷ xs) = replace_all lit skip xs
replace_all lit zero (x ∷ xs) =
    let behind = replace_all lit (length lit - 1) xs in
    let rest = replace_all lit 0 xs in
    if starts_with lit (x ∷ xs)
    then (placeholder ++ behind.0, behind.1 + 1)
    else (x ∷ rest.0, rest.1)

unfoldable pub scrub_literals : List Bytes → Bytes × ℕ → Bytes × ℕ
scrub_literals [] b = b
scrub_literals (lit ∷ lits) (b, n) =
    let r = replace_all lit 0 b in scrub_literals lits (r.0, n + r.1)

unfoldable pub scrub_patterns : List Pattern → Bytes × ℕ → Bytes × ℕ
scrub_patterns [] b = b
scrub_patterns (re ∷ res) (b, n) = let r = re b in scrub_patterns res (r.0, n + r.1)

-- Redactor.scrub: what is written, and how many hits it had
unfoldable pub scrub : Redactor → Bytes → Bytes × ℕ
scrub r p = scrub_patterns r.patterns (scrub_literals r.literals (p, 0))

-- where Write cuts its buffer; `none` holds all of it back
unfoldable pub cut_at : Bytes → Option ℕ
cut_at buf =
    if ltb max_hold (length buf)
    then elim (last_index newline (drop (length buf - max_hold) buf)) [
      | some split ↦ some (length buf - max_hold + suc split)
      | none ↦ some (length buf)
    ]
    else elim (last_index newline buf) [
      | some i ↦ if ltb (suc i) (length buf) then some (suc i) else some (length buf)
      | none ↦ if ltb (length buf) max_hold then none else some (length buf)
    ]

-- The inner writer is given the bytes, and counts as written to whether it fails or not.
unfoldable pub send : Bytes → Redactor → Redactor
send p r = let s = scrub r p in record r { hits = r.hits + s.1; sent = r.sent ++ s.0 ∷ [] }

-- Redactor.Write, whose count and error are the inner writer's
unfoldable pub write : Bytes → Redactor → Redactor
write p r =
    let buf = r.held ++ p in
    elim (cut_at buf) [
      | none ↦ record r { held = buf }
      | some n ↦ send (take n buf) (record r { held = drop n buf })
    ]

-- Redactor.Flush
unfoldable pub flush : Redactor → Redactor
flush r = elim r.held [ [] ↦ r | x ∷ xs ↦ send (x ∷ xs) (record r { held = [] }) ]

unfoldable pub write_all : List Bytes → Redactor → Redactor
write_all [] r = r
write_all (p ∷ ps) r = write_all ps (write p r)

unfoldable pub joined : List Bytes → Bytes
joined [] = []
joined (b ∷ bs) = b ++ joined bs

-- String: what reaches the buffer
abbrev pub redact_text : List Pattern → List Bytes → Bytes → Bytes
redact_text standard literals s = joined (flush (write s (new_redactor standard literals))).sent
