-- ===== src/Engine/World/Frames.antt =====
-- What an operation of the executor does to the machine, whatever it returns: one rule for each way
-- to build an operation, for any relation that the calls and the effects respect.
use dev_ops_pipeline_orchest.Prelude.{
  Bool, Option, String, false, if◌then◌else◌, none, refl, some, subst, true, ℕ, ◌+◌, ◌∷◌, ◌≡◌,
}
use dev_ops_pipeline_orchest.Store.Rows.{Deployment, Result}
use dev_ops_pipeline_orchest.Store.Operations.{Op, run_op}
use dev_ops_pipeline_orchest.Store.Transactions.{Env, Store}
use dev_ops_pipeline_orchest.Engine.World.{
  Cause, Effect, M, Machine, Outcome, World, ask, call, caught, continue_with, defer, done, emit,
  fail, failure, guard, if_some, ignore, look, modify, on_error, pure, run_others, the_dep,
  with_error, with_fence, with_handle, with_previous, with_state, ◌>>=◌,
}
use dev_ops_pipeline_orchest.Store.State.{State}

-- an assignment that leaves what says which deployment this is
pub record Steady (g : Deployment → Deployment) : Type 0 where
  pub same_id : (d : Deployment) → (g d).id ≡ d.id
  pub same_kind : (d : Deployment) → (g d).is_rollback ≡ d.is_rollback
  pub same_version : (d : Deployment) → (g d).version ≡ d.version

pub with_state-Steady : (s : State) → Steady (with_state s)
with_state-Steady s = record {
  same_id = λ d. refl;
  same_kind = λ d. refl;
  same_version = λ d. refl;
}

pub with_error-Steady : (e : String) → Steady (with_error e)
with_error-Steady e = record {
  same_id = λ d. refl;
  same_kind = λ d. refl;
  same_version = λ d. refl;
}

pub with_fence-Steady : (n : ℕ) → Steady (with_fence n)
with_fence-Steady n = record {
  same_id = λ d. refl;
  same_kind = λ d. refl;
  same_version = λ d. refl;
}

pub with_previous-Steady : (v : String) → Steady (with_previous v)
with_previous-Steady v = record {
  same_id = λ d. refl;
  same_kind = λ d. refl;
  same_version = λ d. refl;
}

pub with_handle-Steady : (h : String) → Steady (with_handle h)
with_handle-Steady h = record {
  same_id = λ d. refl;
  same_kind = λ d. refl;
  same_version = λ d. refl;
}

module _ (w : World) where
  abbrev pub met : Machine → Store
  met m = run_others w.platform (w.others m.clock) m.store

  -- the machine behind a call of a method that writes, or that only reads
  abbrev pub after_op : Op → Machine → Machine
  after_op op m = record m {
    store = run_op w.platform (w.env m.clock) op (met m);
    clock = m.clock + 1;
  }

  abbrev pub after_look : Machine → Machine
  after_look m = record m { store = met m; clock = m.clock + 1 }

  -- A relation of machines that every call respects, and every effect that it allows.
  pub record EffectFrame : Type 1 where
    pub Rel : Machine → Machine → Type 0
    pub Admits : Effect → Type 0
    pub Turns : (Deployment → Deployment) → Type 0
    pub same : (m : Machine) → Rel m m
    pub chain : {a b c : Machine} → Rel a b → Rel b c → Rel a c
    pub called : (op : Op) (m : Machine) → Rel m (after_op op m)
    pub looked : (m : Machine) → Rel m (after_look m)
    pub ticked : (m : Machine) → Rel m (record m { clock = m.clock + 1 })
    pub turned :
        (g : Deployment → Deployment) (m : Machine) → Turns g → Rel m (record m { dep = g m.dep })
    pub emitted : (e : Effect) (m : Machine) → Admits e → Rel m (record m { trace = e ∷ m.trace })

  -- `x` stays within the frame, whether it returns or fails.
  pub record Within (f : EffectFrame) {A : Type 0} (x : M A) : Type 0 where
    pub at : (m : Machine) → f.Rel m (x m).1

  module _ {f : EffectFrame} {A : Type 0} where
    pub Within-pure : (a : A) → Within f (pure a)
    unfolding pure
    Within-pure a = record { at = f.same }

    pub Within-fail : (c : Cause) → Within f (fail {A = A} c)
    unfolding fail
    Within-fail c = record { at = f.same }

    pub Within-ask : (g : ℕ → A) → Within f (ask g)
    unfolding ask
    Within-ask g = record { at = f.ticked }

    pub Within-look : (g : Env → Store → Result A) → Within f (look w g)
    unfolding call
    Within-look g = record { at = f.looked }

    -- a method of the store that writes
    pub Within-call :
        (op : Env → Op) (g : Env → Store → Result A × Store)
        → ((env : Env) (s : Store) → run_op w.platform env (op env) s ≡ (g env s).1)
        → Within f (call w g)
    unfolding call
    Within-call op g e = record {
      at = λ m.
          subst (λ (s : Store). f.Rel m (record m { store = s; clock = m.clock + 1 }))
            (e (w.env m.clock) (met m)) (f.called (op (w.env m.clock)) m);
    }

    pub Within-if_some :
        {B : Type 0} (o : Option B) (g : B → M A) (x : M A)
        → ((b : B) → Within f (g b))
        → Within f x
        → Within f (if_some o g x)
    unfolding if_some
    Within-if_some none g x hg hx = hx
    Within-if_some (some b) g x hg hx = hg b

    pub Within-on_error :
        {B : Type 0} (x : M B) (h : Cause → M A) (g : B → M A)
        → Within f x
        → ((c : Cause) → Within f (h c))
        → ((b : B) → Within f (g b))
        → Within f (on_error x h g)
    unfolding on_error
    Within-on_error {B} x h g hx hh hg = record { at = λ m. onward m (x m) (hx.at m) }
      where
        onward : (m : Machine) (r : Outcome B × Machine) → f.Rel m r.1 → f.Rel m (caught h g r).1
        onward m (done a, n) k = f.chain k ((hg a).at n)
        onward m (failure c, n) k = f.chain k ((hh c).at n)

    pub Within-if : (b : Bool) (x y : M A) → Within f x → Within f y → Within f (if b then x else y)
    Within-if true x y hx hy = hx
    Within-if false x y hx hy = hy

    -- a conditional whose branches may use what was tested
    pub Within-when :
        (b : Bool) (x y : M A)
        → (b ≡ true → Within f x)
        → (b ≡ false → Within f y)
        → Within f (if b then x else y)
    Within-when true x y hx hy = hx refl
    Within-when false x y hx hy = hy refl

    pub Within-defer : (x : M (Unit {0})) (y : M A) → Within f x → Within f y → Within f (defer x y)
    unfolding defer
    Within-defer x y hx hy = record { at = λ m. f.chain (hy.at m) (hx.at (y m).1) }

  module _ {f : EffectFrame} where
    pub Within-guard : (b : Bool) (c : Cause) → Within f (guard b c)
    unfolding guard
    Within-guard true c = Within-pure tt
    Within-guard false c = Within-fail c

    pub Within-the_dep : Within f the_dep
    unfolding the_dep
    Within-the_dep = record { at = f.same }

    pub Within-modify : (g : Deployment → Deployment) → f.Turns g → Within f (modify g)
    unfolding modify
    Within-modify g h = record { at = λ m. f.turned g m h }

    pub Within-emit : (e : Effect) → f.Admits e → Within f (emit e)
    unfolding emit
    Within-emit e h = record { at = λ m. f.emitted e m h }

    pub Within-ignore : (x : M (Unit {0})) → Within f x → Within f (ignore x)
    unfolding ignore
    Within-ignore x h = record { at = h.at }

    pub Within-bind :
        {A B : Type 0} (x : M A) (g : A → M B)
        → Within f x
        → ((a : A) → Within f (g a))
        → Within f (x >>= g)
    unfolding ◌>>=◌
    Within-bind {A} {B} x g hx hg = record { at = λ m. onward m (x m) (hx.at m) }
      where
        onward :
            (m : Machine) (r : Outcome A × Machine)
            → f.Rel m r.1
            → f.Rel m (continue_with {A = A} {B = B} g r).1
        onward m (done a, n) h = f.chain h ((hg a).at n)
        onward m (failure c, n) h = h

pub ruleset frame_rules = (
  Within-pure, Within-fail, Within-ask, Within-look, Within-defer, Within-guard, Within-the_dep,
  Within-modify, Within-ignore, Within-bind, Within-if_some, Within-on_error, Within-if,
  with_state-Steady, with_error-Steady, with_fence-Steady, with_previous-Steady, with_handle-Steady,
)
