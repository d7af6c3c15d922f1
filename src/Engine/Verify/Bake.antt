-- ===== src/Engine/Verify/Bake.antt =====
-- The loop of a verification that runs against the store, and the loop over rounds that are known.
use dev_ops_pipeline_orchest.Prelude.{List, Option, [], length, ℕ, ◌++◌, ◌∷◌, ◌≡◌, ◌⊎◌}
use dev_ops_pipeline_orchest.Engine.Verify.{
  Criterion, Probe, Round, Tally, VerifyPolicy, verify_loop,
}
use dev_ops_pipeline_orchest.Engine.Verify.Rounds.{Meets}
use dev_ops_pipeline_orchest.Store.Rows.{Deployment}
use dev_ops_pipeline_orchest.Engine.World.{World}

-- The rounds met either fill the bake window, or whatever came next would give the same.
abbrev Settled : VerifyPolicy → Tally → ℕ → List Round → Type 0
Settled p t n rs =
    (length rs ≡ n) ⊎ ((more : List Round) → verify_loop p t (rs ++ more) ≡ verify_loop p t rs)

module _ (w : World) where
  -- The rounds, one for each of the first probes.
  unfoldable pub MeetsAll :
      Deployment → List Criterion → List (Option (Criterion → Probe)) → List Round → Type 0
  MeetsAll d cs os [] = Unit {0}
  MeetsAll d cs [] (r ∷ rs) = ⊥
  MeetsAll d cs (o ∷ os) (r ∷ rs) = Meets w d cs o r × MeetsAll d cs os rs
