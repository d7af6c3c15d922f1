-- ===== src/Auth/Scopes.antt =====
-- What it takes to be let through by a token.
use mathlib.Core.List.{Memᴰ}
use dev_ops_pipeline_orchest.Prelude.{
  List, Option-cases, String, [], arith, false, inl, inr, lookup, refl, some, true, ◌↔◌, ◌∷◌, ◌≡◌,
  ◌⊎◌, string_eq,
}
use dev_ops_pipeline_orchest.Config.Schema.{Config, Identity}
use dev_ops_pipeline_orchest.Config.Access.{Memᴰ-names_any, Permission, can_iff, names_any-Memᴰ}
use dev_ops_pipeline_orchest.Auth.Tokens.{Token, authorize, covers, granted}

-- a list that is empty, or that names the thing or everything
abbrev pub InScope : List String → String → Type 0
InScope xs x = (xs ≡ []) ⊎ (Memᴰ "*" xs ⊎ Memᴰ x xs)

covers-InScope : (xs : List String) (x : String) → covers xs x ≡ true → InScope xs x
unfolding covers
covers-InScope [] x h = inl refl
covers-InScope (y ∷ ys) x h = inr (names_any-Memᴰ (y ∷ ys) x h)

InScope-covers : (xs : List String) (x : String) → InScope xs x → covers xs x ≡ true
unfolding covers
InScope-covers [] x h = refl
InScope-covers (y ∷ ys) x (inl e) = absurd (ground arith)
InScope-covers (y ∷ ys) x (inr k) = Memᴰ-names_any (y ∷ ys) x k

-- The token's scope and the user's own permission.
pub record Entitled (c : Config) (t : Token) (permission app env : String) : Type 0 where
  pub for_app : InScope t.apps app
  pub for_environment : InScope t.environments env
  pub identity : Identity
  pub known : lookup t.user c.identities ≡ some identity
  pub enabled : identity.disabled ≡ false
  pub permitted : Permission c identity permission env

-- A token lets a request through exactly if its scope is open or names the app, is open or names the
-- environment, and its user is configured, not disabled and holds the permission there: a token never
-- allows more than its user may do, nor more than its scope.
pub authorize-Entitled :
    (c : Config) (t : Token) (permission app env : String)
    → (authorize c (some t) permission app env ≡ granted tt) ↔ Entitled c t permission app env
unfolding authorize
authorize-Entitled c t permission app env = (only, enough)
  where
    only : authorize c (some t) permission app env ≡ granted tt → Entitled c t permission app env
    only h = elim (Option-cases (lookup t.user c.identities)) [
      | inl e ↦ absurd (ground arith)
      | inr (u, e) ↦
          let k = (can_iff c u permission env).0 (ground arith) in
          record {
            for_app = covers-InScope t.apps app (ground arith);
            for_environment = covers-InScope t.environments env (ground arith);
            identity = u;
            known = e;
            enabled = k.0;
            permitted = k.1;
          }
    ]

    enough : Entitled c t permission app env → authorize c (some t) permission app env ≡ granted tt
    enough h =
        let a = InScope-covers t.apps app h.for_app in
        let b = InScope-covers t.environments env h.for_environment in
        let k = (can_iff c h.identity permission env).1 (h.enabled, h.permitted) in
        rw (a, b, h.known, k, authorize) refl
