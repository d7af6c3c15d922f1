-- ===== src/Auth/Tokens.antt =====
-- internal/auth/auth.go: the tokens and the authorization by them. The table is the map from hashes;
-- Go visits it in any order, the model in the order of the list. The header of a request and the
-- listing of the tokens are left out, the random bytes come as their base64 text.
use dev_ops_pipeline_orchest.Prelude.{
  Bool, List, Map, Option, String, [], false, if◌then◌else◌, insert, lookup, ltb, none, not, some,
  suc, true, zero, ℕ, ◌&&◌, ◌*◌, ◌+◌, ◌==◌, ◌∷◌, ◌⧺◌, string_eq, nat_eq,
}
use dev_ops_pipeline_orchest.Store.Rows.{Duration, Time, second}
use dev_ops_pipeline_orchest.Config.Schema.{Config, can, names_any}

-- the errors, without their texts
pub data AuthError : Type 0 where
  no_token unknown_token token_outlived token_revoked forbidden no_user no_random : AuthError

pub data Answer {ℓ} (A : Type ℓ) : Type ℓ where
  granted : A → Answer A
  refusal : AuthError → Answer A

pub record Token : Type 0 where
  pub id : String
  pub hash : String
  pub user : String
  pub apps : List String
  pub environments : List String
  pub issued_at : Time
  pub expires_at : Time
  pub revoked : Bool
  pub last_used_at : Time
  pub description : String

-- Token.Expired
unfoldable pub token_expired : Token → Time → Bool
token_expired t now = not (t.expires_at == 0) && ltb t.expires_at now

-- covers: an empty list is no scope
unfoldable pub covers : List String → String → Bool
covers [] want = true
covers (v ∷ vs) want = names_any (v ∷ vs) want

-- DefaultTTL
abbrev pub default_ttl : Duration
default_ttl = 12 * 3600 * second

-- `s[:n]`
abbrev pub prefix : ℕ → String → String
prefix zero s = String.[]
prefix (suc n) String.[] = String.[]
prefix (suc n) (String.◌∷◌ c s) = String.◌∷◌ c (prefix n s)

-- a duration that is not positive is 0
abbrev pub issued :
    (String → String)
    → Time
    → String
    → String
    → String
    → Duration
    → List String
    → List String
    → Token
issued hash now plaintext user description ttl apps envs = record {
  id = prefix 12 (hash plaintext);
  hash = hash plaintext;
  user = user;
  apps = apps;
  environments = envs;
  issued_at = now;
  expires_at = now + (if ttl == 0 then default_ttl else ttl);
  revoked = false;
  last_used_at = 0;
  description = description;
}

-- Store.Add
unfoldable pub add_token : Token → Map Token → Map Token
add_token t ts = insert t.hash t ts

-- the loop of Lookup: the first row with the hash
unfoldable pub with_hash : String → Map Token → Option Token
with_hash h [] = none
with_hash h ((key, t) ∷ ts) = let rest = with_hash h ts in if t.hash == h then some t else rest

-- a change of a token in its place
unfoldable pub update_token : String → (Token → Token) → Map Token → Map Token
update_token h g [] = []
update_token h g ((key, t) ∷ ts) =
    let rest = update_token h g ts in if t.hash == h then (key, g t) ∷ ts else (key, t) ∷ rest

-- the loop of Revoke
unfoldable pub revoke_first : String → Map Token → Option (Map Token)
revoke_first id [] = none
revoke_first id ((key, t) ∷ ts) =
    if t.id == id
    then some ((key, record t { revoked = true }) ∷ ts)
    else elim (revoke_first id ts) [ none ↦ none | some rest ↦ some ((key, t) ∷ rest) ]

-- Store.Revoke
unfoldable pub revoke : String → Map Token → Answer (Unit {0}) × Map Token
revoke id ts = elim (revoke_first id ts) [
  | none ↦ (refusal unknown_token, ts)
  | some rest ↦ (granted tt, rest)
]

abbrev pub used_at : Time → Token → Token
used_at now t = record t { last_used_at = now }

-- `hash` is SHA-256 in hexadecimal
module _ (hash : String → String) where
  -- Store.Issue; `random` is `none` where the source of random bytes fails
  unfoldable pub issue :
      Time
      → Option String
      → String
      → String
      → Duration
      → List String
      → List String
      → Map Token
      → Answer (String × Token) × Map Token
  issue now random user description ttl apps envs ts =
      if user == "" then (refusal no_user, ts) else elim random [
        | none ↦ (refusal no_random, ts)
        | some text ↦
            let plaintext = "orch_" ⧺ text in
            let t = issued hash now plaintext user description ttl apps envs in
            (granted (plaintext, t), add_token t ts)
      ]

  -- what Lookup does with the row that it finds
  unfoldable pub use_token : Time → Token → Map Token → Answer Token × Map Token
  use_token now t ts =
      if t.revoked
      then (refusal token_revoked, ts)
      else if token_expired t now
      then (refusal token_outlived, ts)
      else (granted (used_at now t), update_token t.hash (used_at now) ts)

  -- Store.Lookup
  unfoldable pub find_token : Time → String → Map Token → Answer Token × Map Token
  find_token now plaintext ts =
      if plaintext == "" then (refusal no_token, ts) else elim (with_hash (hash plaintext) ts) [
        | none ↦ (refusal unknown_token, ts)
        | some t ↦ use_token now t ts
      ]

-- Authorizer.Can
unfoldable pub authorize : Config → Option Token → String → String → String → Answer (Unit {0})
authorize c none permission app env = refusal no_token
authorize c (some t) permission app env =
    if not (covers t.apps app)
    then refusal forbidden
    else if not (covers t.environments env)
    then refusal forbidden
    else elim (lookup t.user c.identities) [
      | none ↦ refusal forbidden
      | some u ↦ if not (can c (some u) permission env) then refusal forbidden else granted tt
    ]
