-- ===== src/Store/State/Paths.antt =====
-- Histories of a deployment: what a sequence of legal transitions can look like.
use dev_ops_pipeline_orchest.Prelude.{
  List, [], arith, false, length, refl, true, ℕ, ◌+◌, ◌<◌, ◌↔◌, ◌∷◌, ◌≡◌, ◌≤◌, ◌⊎◌,
}
use dev_ops_pipeline_orchest.Store.State.{
  State, await_approval, can_transition, deploying, is_terminal, pending, preflight, promoting,
  rolled_back, rolling_back, succeeded, unset, verifying,
}

-- `History s ts u`: from `s` through the states `ts`, each entered by a legal transition, to `u`.
pub data History : State → List State → State → Type 0 where
  here : {s : State} → History s [] s
  move :
      {s t u : State} {ts : List State}
      → can_transition s t ≡ true
      → History t ts u
      → History s (t ∷ ts) u

-- How many transitions can still follow.
rank : State → ℕ
rank pending = 7
rank preflight = 6
rank await_approval = 5
rank deploying = 4
rank verifying = 3
rank promoting = 2
rank rolling_back = 1
rank _ = 0

rank-can_transition : (s t : State) → can_transition s t ≡ true → rank t < rank s
unfolding rank can_transition
rank-can_transition s t h = ground arith

length-History-le-rank :
    {s u : State} {ts : List State} → History s ts u → length ts + rank u ≤ rank s
length-History-le-rank here = omega arith
length-History-le-rank (move {s = s} {t = t} ok rest) =
    omega (arith, rank-can_transition s t ok, length-History-le-rank rest)

rank-le : (s : State) → rank s ≤ 7
unfolding rank
rank-le s = ground arith

-- From any state, at most seven transitions follow, and at most one follows ROLLING_BACK.
pub length-History :
    {s u : State} {ts : List State}
    → History s ts u
    → (length ts ≤ 7) × (s ≡ rolling_back → length ts ≤ 1)
unfolding rank
length-History {s} {u} h = ground (arith, length-History-le-rank h, rank-le s)

-- No transition leaves a state exactly when it is terminal or the zero value "".
pub stuck_iff_terminal :
    (s : State)
    → ((t : State) → can_transition s t ≡ false) ↔ ((is_terminal s ≡ true) ⊎ (s ≡ unset))
unfolding can_transition is_terminal
stuck_iff_terminal s = (stuck s, done s)
  where
    stuck :
        (s : State)
        → ((t : State) → can_transition s t ≡ false)
        → (is_terminal s ≡ true) ⊎ (s ≡ unset)
    stuck pending h = cc (h preflight)
    stuck preflight h = cc (h deploying)
    stuck await_approval h = cc (h deploying)
    stuck deploying h = cc (h verifying)
    stuck verifying h = cc (h promoting)
    stuck promoting h = cc (h succeeded)
    stuck rolling_back h = cc (h rolled_back)
    stuck s h = ground arith

    done :
        (s : State)
        → (is_terminal s ≡ true) ⊎ (s ≡ unset)
        → (t : State) → can_transition s t ≡ false
    done s h t = ground arith

-- The way from a state to SUCCEEDED, where there is one.
abbrev pub Route : State → List State → Type 0
Route succeeded ts = ts ≡ []
Route promoting ts = ts ≡ succeeded ∷ []
Route verifying ts = ts ≡ promoting ∷ succeeded ∷ []
Route deploying ts = ts ≡ verifying ∷ promoting ∷ succeeded ∷ []
Route await_approval ts = ts ≡ deploying ∷ verifying ∷ promoting ∷ succeeded ∷ []
Route preflight ts =
    (ts ≡ deploying ∷ verifying ∷ promoting ∷ succeeded ∷ [])
    ⊎ (ts ≡ await_approval ∷ deploying ∷ verifying ∷ promoting ∷ succeeded ∷ [])
Route pending ts =
    (ts ≡ preflight ∷ deploying ∷ verifying ∷ promoting ∷ succeeded ∷ [])
    ⊎ (ts ≡ preflight ∷ await_approval ∷ deploying ∷ verifying ∷ promoting ∷ succeeded ∷ [])
Route _ ts = ⊥

Route-move :
    (s t : State) (ts : List State) → can_transition s t ≡ true → Route t ts → Route s (t ∷ ts)
unfolding can_transition
Route-move pending t ts h r = ground arith
Route-move _ t ts h r = ground arith

Route-History : {s u : State} {ts : List State} → History s ts u → u ≡ succeeded → Route s ts
Route-History here e = rw e refl
Route-History (move {s = s} {t = t} {ts = ts} ok rest) e =
    Route-move s t ts ok (Route-History rest e)

-- A deployment that starts PENDING and ends SUCCEEDED went through PREFLIGHT, DEPLOYING, VERIFYING
-- and PROMOTING, in this order, with nothing else between them but AWAIT_APPROVAL before DEPLOYING.
pub succeeded_route :
    {ts : List State}
    → History pending ts succeeded
    → (ts ≡ preflight ∷ deploying ∷ verifying ∷ promoting ∷ succeeded ∷ [])
      ⊎ (ts ≡ preflight ∷ await_approval ∷ deploying ∷ verifying ∷ promoting ∷ succeeded ∷ [])
succeeded_route h = Route-History h refl
