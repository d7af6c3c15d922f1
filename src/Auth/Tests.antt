-- ===== src/Auth/Tests.antt =====
-- The theorems on tokens at concrete ones.
use mathlib.Core.Bool.{true≢false}
use dev_ops_pipeline_orchest.Prelude.{
  Map, String, [], arith, eq_iff, refl, some, sym, true, ◌↔◌, ◌∷◌, ◌≡◌, ◌≢◌, ◌⧺◌, string_eq,
}
use dev_ops_pipeline_orchest.Auth.Tokens.{
  Token, authorize, find_token, granted, issue, issued, refusal, revoke, token_revoked, used_at,
  with_hash,
}
use dev_ops_pipeline_orchest.Auth.Revocations.{no_use, revoked_for_good, then_find, then_revoke}
use dev_ops_pipeline_orchest.Config.Schema.{Config}
use dev_ops_pipeline_orchest.Auth.Lookups.{issue-find_token}
use dev_ops_pipeline_orchest.Auth.Scopes.{Entitled, authorize-Entitled}

abbrev test_hash : String → String
test_hash s = s

abbrev ci_token : Token
ci_token = issued test_hash 5 "orch_t" "u2" "ci" 100 ("web" ∷ []) ("stage" ∷ [])

abbrev nobody : Config
nobody = record { apps = []; environments = []; roles = []; identities = [] }

authorize-Entitled_example :
    (authorize nobody (some ci_token) "deploy:trigger" "web" "stage" ≡ granted tt)
    ↔ Entitled nobody ci_token "deploy:trigger" "web" "stage"
authorize-Entitled_example = authorize-Entitled nobody ci_token "deploy:trigger" "web" "stage"

named : ◌≢◌ {A = String} "u2" ""
named e = absurd (true≢false (sym ((eq_iff "u2" "").1 e)))

issue-find_token_example :
    (find_token test_hash 50
      ("orch_" ⧺ "t")
      (issue test_hash 5 (some "t") "u2" "ci" 100 ("web" ∷ []) ("stage" ∷ []) []).1).0
    ≡ granted
        (used_at 50 (issued test_hash 5 ("orch_" ⧺ "t") "u2" "ci" 100 ("web" ∷ []) ("stage" ∷ [])))
issue-find_token_example =
    issue-find_token test_hash 5 50 "t" "u2" "ci" 100 ("web" ∷ []) ("stage" ∷ []) [] tt named
      (omega arith)

abbrev dead_token : Token
dead_token = record ci_token { revoked = true }

abbrev one_dead : Map Token
one_dead = ("orch_t", dead_token) ∷ []

not_empty : ◌≢◌ {A = String} "orch_t" ""
not_empty e = absurd (true≢false (sym ((eq_iff "orch_t" "").1 e)))

revoked_for_good_example :
    (find_token test_hash 60 "orch_t"
      (revoke "x" (find_token test_hash 50 "orch_t" one_dead).1).1).0
    ≡ refusal token_revoked
unfolding with_hash
revoked_for_good_example =
    revoked_for_good test_hash "orch_t" dead_token 60 not_empty refl refl
      (then_find 50 "orch_t" (then_revoke "x" no_use))
