-- ===== src/Store/StateTests.antt =====
-- Tests and examples for the states.
use dev_ops_pipeline_orchest.Prelude.{List, [], length, refl, ◌∷◌, ◌≡◌, ◌≤◌, ◌⊎◌, string_eq, nat_eq}
use dev_ops_pipeline_orchest.Store.State.{
  State, await_approval, can_transition, deploying, pending, preflight, promoting, rolling_back,
  succeeded, verifying,
}
use dev_ops_pipeline_orchest.Store.State.Paths.{
  History, here, length-History, move, succeeded_route,
}

abbrev plain_route : List State
plain_route = preflight ∷ deploying ∷ verifying ∷ promoting ∷ succeeded ∷ []

plain_route-History : History pending plain_route succeeded
unfolding can_transition
plain_route-History = move refl (move refl (move refl (move refl (move refl here))))

length-History_example :
    (length plain_route ≤ 7) × (pending ≡ rolling_back → length plain_route ≤ 1)
length-History_example = length-History plain_route-History

succeeded_route_example :
    (plain_route ≡ preflight ∷ deploying ∷ verifying ∷ promoting ∷ succeeded ∷ [])
    ⊎ (plain_route
        ≡ preflight ∷ await_approval ∷ deploying ∷ verifying ∷ promoting ∷ succeeded ∷ [])
succeeded_route_example = succeeded_route plain_route-History
