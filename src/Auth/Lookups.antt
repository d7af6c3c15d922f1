-- ===== src/Auth/Lookups.antt =====
-- What a lookup finds after a token was issued, and after it was revoked.
use mathlib.Core.Bool.{true≢false}
use Prim.Native.String.append.{cons}
use dev_ops_pipeline_orchest.Prelude.{
  All, Bool, Bool-cases, List, Map, String, [], ap, arith, eq_iff, false, if◌then◌else◌, inl, inr,
  insert, refl, some, sym, true, ◌+◌, ◌==◌, ◌∙◌, ◌∷◌, ◌≡◌, ◌≢◌, ◌≤◌, ◌⧺◌, string_eq, nat_eq,
}
use dev_ops_pipeline_orchest.Store.Rows.{Duration, Time}
use dev_ops_pipeline_orchest.Auth.Tokens.{
  Token, add_token, default_ttl, find_token, granted, issue, issued, token_expired, use_token,
  used_at, with_hash,
}

-- every row stands under its hash
abbrev pub Keyed : Map Token → Type 0
Keyed ts = All (λ e. e.1.hash ≡ e.0) ts

with_hash-insert :
    (h : String) (t : Token) (ts : Map Token)
    → Keyed ts
    → t.hash ≡ h
    → with_hash h (insert h t ts) ≡ some t
unfolding with_hash insert
with_hash-insert h t [] k e = ground (arith, eq_iff t.hash h)
with_hash-insert h t ((key, u) ∷ ts) k e =
    ground
      (arith, k.0, eq_iff key h, eq_iff u.hash h, eq_iff t.hash h, with_hash-insert h t ts k.1 e)

abbrev has_text : String → Bool
has_text String.[] = false
has_text (String.◌∷◌ c s) = true

-- a text behind the prefix of a token is not empty
orch_text : (text : String) → ("orch_" ⧺ text == "") ≡ false
orch_text text = elim (Bool-cases ("orch_" ⧺ text == "")) [
  | inr e ↦ e
  | inl e ↦ absurd (
      true≢false (
        sym (ap has_text (λ i. cons "o" "rch_" text i))
        ∙ ap has_text ((eq_iff ("orch_" ⧺ text) "").0 e)))
]

module _ (hash : String → String) where
  -- A token that was issued is found by its text until it expires, with the user and the scope that
  -- it was issued for.
  pub issue-find_token :
      (now later : Time) (text user description : String) (ttl : Duration) (apps envs : List String)
      (ts : Map Token)
      → Keyed ts
      → user ≢ ""
      → later ≤ now + (if ttl == 0 then default_ttl else ttl)
      → let plaintext = "orch_" ⧺ text in
        (find_token hash later plaintext
          (issue hash now (some text) user description ttl apps envs ts).1).0
        ≡ granted (used_at later (issued hash now plaintext user description ttl apps envs))
  unfolding find_token issue use_token add_token token_expired
  issue-find_token now later text user description ttl apps envs ts k e h =
      let t = issued hash now ("orch_" ⧺ text) user description ttl apps envs in
      let found = with_hash-insert t.hash t ts k refl in
      let named : (user == "") ≡ false = ground (arith, eq_iff user "") in
      let some_text = orch_text text in
      let alive : token_expired t later ≡ false = ground arith in
      rw (some_text, named, found, alive) refl
