-- ===== src/Config/Access.antt =====
-- internal/config/schema.go: what it takes to hold a permission.
use mathlib.Core.List.{Memᴰ}
use mathlib.Core.List.Memᴰ.{head, tail}
use dev_ops_pipeline_orchest.Prelude.{
  Bool-cases, List, String, [], arith, eq_iff, false, if◌then◌else◌, inl, inr, refl, some, subst,
  sym, true, ◌&&◌, ◌==◌, ◌↔◌, ◌∷◌, ◌≡◌, ◌⊎◌, string_eq,
}
use dev_ops_pipeline_orchest.Config.Schema.{
  Config, Grant, Identity, any_grant, any_role, can, covers_env, grants_of, names_any,
}

-- A grant of one of the user's roles that names the permission, and the environment or all of them.
pub record Permission (c : Config) (u : Identity) (permission env : String) : Type 0 where
  pub role : String
  pub grant : Grant
  pub held : Memᴰ role u.roles
  pub granted : Memᴰ grant (grants_of c role)
  pub names : grant.permission ≡ permission
  pub reaches : Memᴰ "*" grant.on ⊎ Memᴰ env grant.on

pub names_any-Memᴰ :
    (xs : List String) (x : String) → names_any xs x ≡ true → Memᴰ "*" xs ⊎ Memᴰ x xs
unfolding names_any
names_any-Memᴰ [] x h = absurd (ground arith)
names_any-Memᴰ (y ∷ ys) x h = elim (Bool-cases (y == "*")) [
  | inl s ↦ inl (head (sym ((string_eq.beq_iff y "*").0 s)))
  | inr s ↦ elim (Bool-cases (y == x)) [
    | inl e ↦ inr (head (sym ((string_eq.beq_iff y x).0 e)))
    | inr e ↦ elim (names_any-Memᴰ ys x (ground arith)) [
      | inl k ↦ inl (tail k)
      | inr k ↦ inr (tail k)
    ]
  ]
]

pub Memᴰ-names_any :
    (xs : List String) (x : String) → Memᴰ "*" xs ⊎ Memᴰ x xs → names_any xs x ≡ true
unfolding names_any
Memᴰ-names_any [] x (inl k) = elim k [ ]
Memᴰ-names_any [] x (inr k) = elim k [ ]
Memᴰ-names_any (y ∷ ys) x (inl (head e)) = ground (arith, eq_iff y "*", sym e)
Memᴰ-names_any (y ∷ ys) x (inl (tail k)) = ground (arith, Memᴰ-names_any ys x (inl k))
Memᴰ-names_any (y ∷ ys) x (inr (head e)) = ground (arith, eq_iff y x, sym e)
Memᴰ-names_any (y ∷ ys) x (inr (tail k)) = ground (arith, Memᴰ-names_any ys x (inr k))

any_grant-Memᴰ :
    (permission env : String) (gs : List Grant)
    → any_grant permission env gs ≡ true
    → (g : Grant) × Memᴰ g gs × (g.permission ≡ permission) × (Memᴰ "*" g.on ⊎ Memᴰ env g.on)
unfolding any_grant
any_grant-Memᴰ permission env [] h = absurd (ground arith)
any_grant-Memᴰ permission env (g ∷ gs) h =
    elim (Bool-cases (g.permission == permission && covers_env g env)) [
      | inl e ↦ (
        g,
        head refl,
        ground (arith, eq_iff g.permission permission),
        names_any-Memᴰ g.on env (ground arith),
      )
      | inr e ↦
          let (x, k, p, q) = any_grant-Memᴰ permission env gs (ground arith) in (x, tail k, p, q)
    ]

Memᴰ-any_grant :
    (permission env : String) (gs : List Grant) (g : Grant)
    → Memᴰ g gs
    → g.permission ≡ permission
    → Memᴰ "*" g.on ⊎ Memᴰ env g.on
    → any_grant permission env gs ≡ true
unfolding any_grant
Memᴰ-any_grant permission env [] g k p q = elim k [ ]
Memᴰ-any_grant permission env (x ∷ gs) g (head e) p q =
    let k = Memᴰ-names_any g.on env q in
    subst
      (λ y.
        (if y.permission == permission && covers_env y env
          then true
          else any_grant permission env gs)
        ≡ true)
      e (ground (arith, eq_iff g.permission permission, k))
Memᴰ-any_grant permission env (x ∷ gs) g (tail k) p q =
    ground (arith, Memᴰ-any_grant permission env gs g k p q)

any_role-Memᴰ :
    (c : Config) (permission env : String) (rs : List String)
    → any_role c permission env rs ≡ true
    → (r : String) × Memᴰ r rs × (any_grant permission env (grants_of c r) ≡ true)
unfolding any_role
any_role-Memᴰ c permission env [] h = absurd (ground arith)
any_role-Memᴰ c permission env (r ∷ rs) h =
    elim (Bool-cases (any_grant permission env (grants_of c r))) [
      | inl e ↦ (r, head refl, e)
      | inr e ↦ let (x, k, q) = any_role-Memᴰ c permission env rs (ground arith) in (x, tail k, q)
    ]

Memᴰ-any_role :
    (c : Config) (permission env : String) (rs : List String) (r : String)
    → Memᴰ r rs
    → any_grant permission env (grants_of c r) ≡ true
    → any_role c permission env rs ≡ true
unfolding any_role
Memᴰ-any_role c permission env [] r k h = elim k [ ]
Memᴰ-any_role c permission env (x ∷ rs) r (head e) h =
    subst
      (λ y.
        (if any_grant permission env (grants_of c y) then true else any_role c permission env rs)
        ≡ true)
      e (ground arith)
Memᴰ-any_role c permission env (x ∷ rs) r (tail k) h =
    ground (arith, Memᴰ-any_role c permission env rs r k h)

-- A user holds a permission on an environment exactly if the account is not disabled and one of its
-- roles is given a grant of that permission that names the environment or all of them.
pub can_iff :
    (c : Config) (u : Identity) (permission env : String)
    → (can c (some u) permission env ≡ true)
      ↔ ((u.disabled ≡ false) × Permission c u permission env)
unfolding can
can_iff c u permission env = (
  λ h.
      let (r, k, e) = any_role-Memᴰ c permission env u.roles (ground arith) in
      let (g, l, p, q) = any_grant-Memᴰ permission env (grants_of c r) e in
      (ground arith, record { role = r; grant = g; held = k; granted = l; names = p; reaches = q }),
  λ (e, x). rw e (
      Memᴰ-any_role c permission env u.roles x.role x.held
        (Memᴰ-any_grant permission env (grants_of c x.role) x.grant x.granted x.names x.reaches)),
)
