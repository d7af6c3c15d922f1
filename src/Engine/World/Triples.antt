-- ===== src/Engine/World/Triples.antt =====
-- What holds of the machine behind an operation, where it returns and where it fails.
use dev_ops_pipeline_orchest.Prelude.{
  Bool, Option, false, if◌then◌else◌, none, refl, some, true, ◌≡◌,
}
use dev_ops_pipeline_orchest.Engine.World.{
  Cause, M, Machine, Outcome, caught, continue_with, defer, done, fail, failure, guard, if_some,
  on_error, pure, the_dep, ◌>>=◌, ◌>>◌,
}
use dev_ops_pipeline_orchest.Store.Rows.{Deployment}

-- `Q` where the operation has returned, `E` where it has failed
unfoldable pub Ends :
    {A : Type 0} → (Machine → Type 0) → (Machine → Type 0) → Outcome A × Machine → Type 0
Ends Q E (done a, n) = Q n
Ends Q E (failure c, n) = E n

pub record Triple {A : Type 0} (P : Machine → Type 0) (x : M A) (Q E : Machine → Type 0)
    : Type 0 where
  pub at : (m : Machine) → P m → Ends Q E (x m)

module _ {A : Type 0} {P Q E : Machine → Type 0} where
  pub Triple-bind :
      {B : Type 0} {R : Machine → Type 0} (x : M B) (g : B → M A)
      → Triple P x R E
      → ((b : B) → Triple R (g b) Q E)
      → Triple P (x >>= g) Q E
  unfolding Ends ◌>>=◌
  Triple-bind {B} {R} x g hx hg = record { at = λ m h. onward (x m) (hx.at m h) }
    where
      onward : (r : Outcome B × Machine) → Ends R E r → Ends Q E (continue_with {A = B} {B = A} g r)
      onward (done b, n) k = (hg b).at n k
      onward (failure c, n) k = k

  pub Triple-on_error :
      {B : Type 0} {R F : Machine → Type 0} (x : M B) (h : Cause → M A) (g : B → M A)
      → Triple P x R F
      → ((c : Cause) → Triple F (h c) Q E)
      → ((b : B) → Triple R (g b) Q E)
      → Triple P (on_error x h g) Q E
  unfolding Ends on_error
  Triple-on_error {B} {R} {F} x h g hx hh hg = record { at = λ m k. onward (x m) (hx.at m k) }
    where
      onward : (r : Outcome B × Machine) → Ends R F r → Ends Q E (caught {A = B} {B = A} h g r)
      onward (done b, n) k = (hg b).at n k
      onward (failure c, n) k = (hh c).at n k

  pub Triple-if :
      (b : Bool) (x y : M A) → Triple P x Q E → Triple P y Q E → Triple P (if b then x else y) Q E
  Triple-if true x y hx hy = hx
  Triple-if false x y hx hy = hy

  pub Triple-weaken :
      {P' Q' E' : Machine → Type 0} (x : M A)
      → Triple P' x Q' E'
      → ((m : Machine) → P m → P' m)
      → ((m : Machine) → Q' m → Q m)
      → ((m : Machine) → E' m → E m)
      → Triple P x Q E
  unfolding Ends
  Triple-weaken {P'} {Q'} {E'} x hx p q e = record { at = λ m h. onward (x m) (hx.at m (p m h)) }
    where
      onward : (r : Outcome A × Machine) → Ends Q' E' r → Ends Q E r
      onward (done b, n) k = q n k
      onward (failure c, n) k = e n k

  -- what holds behind an operation whatever it returns
  pub Triple-always :
      (x : M A) → ((m : Machine) → P m → Q (x m).1) → ((m : Machine) → Q m → E m) → Triple P x Q E
  unfolding Ends
  Triple-always x h e = record { at = λ m k. onward (x m) (h m k) }
    where
      onward : (r : Outcome A × Machine) → Q r.1 → Ends Q E r
      onward (done b, n) k = k
      onward (failure c, n) k = e n k

  pub Triple-if_some :
      {B : Type 0} (o : Option B) (g : B → M A) (x : M A)
      → ((b : B) → Triple P (g b) Q E)
      → Triple P x Q E
      → Triple P (if_some o g x) Q E
  unfolding if_some
  Triple-if_some none g x hg hx = hx
  Triple-if_some (some b) g x hg hx = hg b

  pub Triple-defer :
      (x : M (Unit {0})) (y : M A)
      → ((m : Machine) → Q m → Q (x m).1)
      → ((m : Machine) → E m → E (x m).1)
      → Triple P y Q E
      → Triple P (defer x y) Q E
  unfolding Ends defer
  Triple-defer x y q e h = record { at = λ m k. onward (y m) (h.at m k) }
    where
      onward : (r : Outcome A × Machine) → Ends Q E r → Ends Q E (r.0, (x r.1).1)
      onward (done b, n) k = q n k
      onward (failure c, n) k = e n k

  pub Triple-fail : (c : Cause) → ((m : Machine) → P m → E m) → Triple P (fail {A = A} c) Q E
  unfolding Ends fail
  Triple-fail c h = record { at = h }

  pub Triple-pure : (a : A) → ((m : Machine) → P m → Q m) → Triple P (pure a) Q E
  unfolding Ends pure
  Triple-pure a h = record { at = h }

  -- the rest of a block may use that the row is the machine's
  pub Triple-the_dep :
      (g : Deployment → M A)
      → ((d : Deployment) → Triple (λ m. P m × (m.dep ≡ d)) (g d) Q E)
      → Triple P (the_dep >>= g) Q E
  unfolding Ends the_dep ◌>>=◌
  Triple-the_dep g h = record { at = λ m k. (h m.dep).at m (k, refl) }

  -- the rest of a block may use what was tested
  pub Triple-guard :
      (b : Bool) (c : Cause) (x : M A)
      → (b ≡ true → Triple P x Q E)
      → ((m : Machine) → P m → E m)
      → Triple P (guard b c >> x) Q E
  unfolding Ends guard pure fail ◌>>=◌
  Triple-guard true c x h e = record { at = (h refl).at }
  Triple-guard false c x h e = record { at = e }

-- a test at the end of a block
pub Triple-test :
    {P Q E : Machine → Type 0} (b : Bool) (c : Cause)
    → ((m : Machine) → P m → b ≡ true → Q m)
    → ((m : Machine) → P m → E m)
    → Triple P (guard b c) Q E
unfolding Ends guard pure fail
Triple-test true c q e = record { at = λ m h. q m h refl }
Triple-test false c q e = record { at = e }
