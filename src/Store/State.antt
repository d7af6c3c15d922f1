-- ===== src/Store/State.antt =====
-- internal/store/model.go: the deployment states and the transitions between them.
-- `unset` is Go's zero value "" of the string type `State`, which is no declared state.
pub mod Paths
use dev_ops_pipeline_orchest.Prelude.{
  Bool, Eq, List, String, [], arith, false, if◌then◌else◌, not, true, ℕ, ◌==◌, ◌||◌, ◌↔◌, ◌∷◌, ◌≡◌,
  nat_eq,
}

pub data State : Type 0 where
  unset pending preflight await_approval deploying verifying promoting succeeded : State
  rolling_back rolled_back rollback_failed failed aborted unknown : State

-- The constants' texts, which the source compares, logs and stores.
abbrev pub state_name : State → String
state_name unset = ""
state_name pending = "PENDING"
state_name preflight = "PREFLIGHT"
state_name await_approval = "AWAIT_APPROVAL"
state_name deploying = "DEPLOYING"
state_name verifying = "VERIFYING"
state_name promoting = "PROMOTING"
state_name succeeded = "SUCCEEDED"
state_name rolling_back = "ROLLING_BACK"
state_name rolled_back = "ROLLED_BACK"
state_name rollback_failed = "ROLLBACK_FAILED"
state_name failed = "FAILED"
state_name aborted = "ABORTED"
state_name unknown = "UNKNOWN"

abbrev state_index : State → ℕ
state_index unset = 0
state_index pending = 1
state_index preflight = 2
state_index await_approval = 3
state_index deploying = 4
state_index verifying = 5
state_index promoting = 6
state_index succeeded = 7
state_index rolling_back = 8
state_index rolled_back = 9
state_index rollback_failed = 10
state_index failed = 11
state_index aborted = 12
state_index unknown = 13

abbrev pub state_beq : State → State → Bool
state_beq a b = state_index a == state_index b

pub state_beq_iff : (a b : State) → (state_beq a b ≡ true) ↔ (a ≡ b)
state_beq_iff a b = ground arith

instance abbrev pub state_eq : Eq State
state_eq = record { beq = state_beq; beq_iff = state_beq_iff }

-- State.IsTerminal
unfoldable pub is_terminal : State → Bool
is_terminal succeeded = true
is_terminal rolled_back = true
is_terminal rollback_failed = true
is_terminal aborted = true
is_terminal failed = true
is_terminal unknown = true
is_terminal _ = false

-- State.Pages
unfoldable pub pages : State → Bool
pages s = s == rollback_failed || s == unknown

-- State.RequiresLease
unfoldable pub requires_lease : State → Bool
requires_lease preflight = true
requires_lease await_approval = true
requires_lease deploying = true
requires_lease verifying = true
requires_lease promoting = true
requires_lease rolling_back = true
requires_lease _ = false

-- State.Active
unfoldable pub active : State → Bool
unfolding is_terminal
active s = not (is_terminal s)

-- allowedTransitions; a key that the map lacks has the nil slice
unfoldable pub allowed_transitions : State → List State
allowed_transitions pending = preflight ∷ aborted ∷ failed ∷ []
allowed_transitions preflight = await_approval ∷ deploying ∷ failed ∷ aborted ∷ rollback_failed ∷ []
allowed_transitions await_approval = deploying ∷ failed ∷ aborted ∷ []
allowed_transitions deploying =
    verifying ∷ rolling_back ∷ failed ∷ aborted ∷ unknown ∷ rollback_failed ∷ []
allowed_transitions verifying =
    promoting ∷ rolling_back ∷ failed ∷ aborted ∷ unknown ∷ rollback_failed ∷ []
allowed_transitions promoting =
    succeeded ∷ rolling_back ∷ failed ∷ aborted ∷ unknown ∷ rollback_failed ∷ []
allowed_transitions rolling_back = rolled_back ∷ rollback_failed ∷ unknown ∷ []
allowed_transitions _ = []

contains : List State → State → Bool
contains [] to = false
contains (s ∷ rest) to = if s == to then true else contains rest to

-- CanTransition
unfoldable pub can_transition : State → State → Bool
unfolding allowed_transitions contains
can_transition from to = if from == to then false else contains (allowed_transitions from) to

-- AllStates
pub all_states : List State
all_states =
    pending ∷ preflight ∷ await_approval ∷ deploying ∷ verifying ∷ promoting ∷ succeeded
    ∷ rolling_back ∷ rolled_back ∷ rollback_failed ∷ failed ∷ aborted ∷ unknown ∷ []
