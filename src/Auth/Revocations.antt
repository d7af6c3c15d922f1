-- ===== src/Auth/Revocations.antt =====
-- A revoked token stays revoked.
use dev_ops_pipeline_orchest.Prelude.{
  Bool-cases, Map, Option-cases, String, [], arith, eq_iff, false, inl, inr, refl, some, subst,
  true, ◌==◌, ◌∷◌, ◌≡◌, ◌≢◌, string_eq, nat_eq,
}
use dev_ops_pipeline_orchest.Store.Rows.{Time}
use dev_ops_pipeline_orchest.Auth.Tokens.{
  Token, find_token, refusal, revoke, revoke_first, token_expired, token_revoked, update_token,
  use_token, used_at, with_hash,
}

-- the first row with a hash is revoked
record Dead (h : String) (ts : Map Token) : Type 0 where
  row : Token
  found : with_hash h ts ≡ some row
  ended : row.revoked ≡ true

update_token-Dead :
    (h k : String) (now : Time) (ts : Map Token)
    → Dead h ts
    → Dead h (update_token k (used_at now) ts)
unfolding update_token with_hash
update_token-Dead h k now [] x = x
update_token-Dead h k now ((key, u) ∷ ts) x = elim (Bool-cases (u.hash == k)) [
  | inl f ↦ elim (Bool-cases (u.hash == h)) [
    | inl e ↦ record {
      row = used_at now u;
      found = ground (arith, x.found, x.ended);
      ended = ground (arith, x.found, x.ended);
    }
    | inr e ↦ record { row = x.row; found = ground (arith, x.found); ended = x.ended }
  ]
  | inr f ↦ elim (Bool-cases (u.hash == h)) [
    | inl e ↦ record { row = x.row; found = ground (arith, x.found); ended = x.ended }
    | inr e ↦
        let y =
          update_token-Dead h k now ts
            (record { row = x.row; found = ground (arith, x.found); ended = x.ended }) in
        record { row = y.row; found = ground (arith, y.found); ended = y.ended }
  ]
]

revoke_first-Dead :
    (h id : String) (ts ts' : Map Token) → Dead h ts → revoke_first id ts ≡ some ts' → Dead h ts'
unfolding revoke_first with_hash
revoke_first-Dead h id [] ts' x q = absurd (ground arith)
revoke_first-Dead h id ((key, u) ∷ ts) ts' x q = elim (Bool-cases (u.id == id)) [
  | inl f ↦
      let same : (key, record u { revoked = true }) ∷ ts ≡ ts' = ground arith in
      subst (Dead h) same (elim (Bool-cases (u.hash == h)) [
        | inl e ↦ record { row = record u { revoked = true }; found = ground arith; ended = refl }
        | inr e ↦ record { row = x.row; found = ground (arith, x.found); ended = x.ended }
      ])
  | inr f ↦ elim (Option-cases (revoke_first id ts)) [
    | inl n ↦ absurd (ground arith)
    | inr (rest, n) ↦
        let same : (key, u) ∷ rest ≡ ts' = ground arith in
        subst (Dead h) same (elim (Bool-cases (u.hash == h)) [
          | inl e ↦ record { row = x.row; found = ground (arith, x.found); ended = x.ended }
          | inr e ↦
              let y =
                revoke_first-Dead h id ts rest
                  (record { row = x.row; found = ground (arith, x.found); ended = x.ended }) n in
              record { row = y.row; found = ground (arith, y.found); ended = y.ended }
        ])
  ]
]

revoke-Dead : (h id : String) (ts : Map Token) → Dead h ts → Dead h (revoke id ts).1
unfolding revoke
revoke-Dead h id ts x = elim (Option-cases (revoke_first id ts)) [
  | inl n ↦ rw (n, revoke) x
  | inr (rest, n) ↦ rw (n, revoke) (revoke_first-Dead h id ts rest x n)
]

module _ (hash : String → String) where
  find_token-Dead :
      (h text : String) (now : Time) (ts : Map Token)
      → Dead h ts
      → Dead h (find_token hash now text ts).1
  unfolding find_token use_token token_expired
  find_token-Dead h text now ts x = elim (Bool-cases (text == "")) [
    | inl e ↦ rw e x
    | inr e ↦ elim (Option-cases (with_hash (hash text) ts)) [
      | inl n ↦ rw (e, n) x
      | inr (t, n) ↦ rw (e, n) (used t)
    ]
  ]
    where
      used : (t : Token) → Dead h (use_token hash now t ts).1
      used t = elim (Bool-cases t.revoked) [
        | inl r ↦ rw (r, use_token) x
        | inr r ↦ elim (Bool-cases (token_expired t now)) [
          | inl o ↦ rw (r, o, use_token) x
          | inr o ↦ rw (r, o, use_token) (update_token-Dead h t.hash now ts x)
        ]
      ]

  -- lookups and revocations, one behind the other
  pub data Uses : Map Token → Map Token → Type 0 where
    no_use : {ts : Map Token} → Uses ts ts
    then_find :
        {ts ts' : Map Token} (now : Time) (text : String)
        → Uses (find_token hash now text ts).1 ts'
        → Uses ts ts'
    then_revoke : {ts ts' : Map Token} (id : String) → Uses (revoke id ts).1 ts' → Uses ts ts'

  Uses-Dead : {ts ts' : Map Token} (h : String) → Uses ts ts' → Dead h ts → Dead h ts'
  Uses-Dead h no_use x = x
  Uses-Dead {ts} h (then_find now text run) x = Uses-Dead h run (find_token-Dead h text now ts x)
  Uses-Dead {ts} h (then_revoke id run) x = Uses-Dead h run (revoke-Dead h id ts x)

  -- A token that is revoked is refused as revoked for good, at any time and after whatever lookups
  -- and revocations of tokens follow.
  pub revoked_for_good :
      {ts ts' : Map Token} (text : String) (t : Token) (now : Time)
      → text ≢ ""
      → with_hash (hash text) ts ≡ some t
      → t.revoked ≡ true
      → Uses ts ts'
      → (find_token hash now text ts').0 ≡ refusal token_revoked
  unfolding find_token use_token
  revoked_for_good {ts} {ts'} text t now ne e r run =
      let x = Uses-Dead (hash text) run (record { row = t; found = e; ended = r }) in
      let named : (text == "") ≡ false = ground (arith, eq_iff text "") in
      rw (named, x.found, x.ended, find_token) refl
