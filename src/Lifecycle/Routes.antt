-- ===== src/Lifecycle/Routes.antt =====
-- Routes along the edges of the lifecycle table, and the gates that none of them goes round.
use issue_orchestration.Prelude.{
  ℕ, ◌+◌, ◌<◌, ◌≤◌, ◌≡◌, ◌≢◌, ◌⊎◌, inl, inr, sym, All, All-mem, Memᴰ, subst, List, [], ◌∷◌, arith,
  length,
}
use issue_orchestration.Lifecycle.Definitions.{
  State, discovered, acceptance_frozen, test_contract_planning, test_contract_frozen, implementing,
  candidate_green, behavior_green, ui_adjudicating, ux_acceptance, ux_accepted, documenting,
  documentation_green, delivery_ready, delivering, cleaning, closed, terminal, next,
}

-- How far along the stages a state stands.
abbrev pub stage : State → ℕ
stage discovered = 0
stage acceptance_frozen = 1
stage test_contract_planning = 2
stage test_contract_frozen = 3
stage implementing = 4
stage candidate_green = 5
stage behavior_green = 6
stage ui_adjudicating = 7
stage ux_acceptance = 8
stage ux_accepted = 9
stage documenting = 10
stage documentation_green = 11
stage delivery_ready = 12
stage delivering = 13
stage cleaning = 14
stage closed = 15
stage terminal = 15

-- Each edge goes to a later stage.
stage_grows : (s : State) → All (λ t. stage s < stage t) (next s)
unfolding next
stage_grows discovered = omega arith
stage_grows _ = omega arith

-- No edge passes the state `g` by: short of it, an edge stays short of it, reaches it or leads to
-- `terminal`.
abbrev pub Past : State → State → Type 0
Past g t = (stage t < stage g) ⊎ ((t ≡ g) ⊎ (t ≡ terminal))

abbrev pub Gate : State → Type 0
Gate g = (s : State) → stage s < stage g → All (Past g) (next s)

-- The states that a member goes through, the first one left out.
pub data Route : State → List State → State → Type 0 where
  here : {s : State} → Route s [] s
  step : {s t u : State} {ts : List State} → Memᴰ t (next s) → Route t ts u → Route s (t ∷ ts) u

pub Route-bounded : {s u : State} {ts : List State} → Route s ts u → length ts + stage s ≤ stage u
Route-bounded here = omega arith
Route-bounded (step {s = s} {t = t} m r) =
    omega (arith, All-mem (λ v. stage s < stage v) (next s) (stage_grows s) m, Route-bounded r)

nothing_follows : {t : State} → Memᴰ t (next terminal) → ⊥
unfolding next
nothing_follows m = elim m [ ]

pub Route-terminal : {s u : State} {ts : List State} → Route s ts u → s ≡ terminal → u ≡ terminal
Route-terminal here e = e
Route-terminal (step {t = t} m r) e = absurd (nothing_follows (subst (λ x. Memᴰ t (next x)) e m))

-- A route to `closed` that begins short of a gate goes through it.
pub Route-gate :
    (g : State)
    → Gate g
    → g ≢ closed
    → stage g < 15
    → {s u : State} {ts : List State} → Route s ts u
    → u ≡ closed
    → stage s < stage g
    → Memᴰ g ts
Route-gate g gate other low here e short = absurd (ground arith)
Route-gate g gate other low (step {s = s} {t = t} m r) e short =
    elim (All-mem (Past g) (next s) (gate s short) m) [
      | inl before ↦ Memᴰ.tail (Route-gate g gate other low r e before)
      | inr (inl reached) ↦ Memᴰ.head (sym reached)
      | inr (inr lost) ↦ cc (Route-terminal r lost)
    ]

pub behavior-Gate : Gate behavior_green
unfolding next
behavior-Gate discovered h = ground arith
behavior-Gate _ h = ground arith

pub delivering-Gate : Gate delivering
unfolding next
delivering-Gate discovered h = ground arith
delivering-Gate _ h = ground arith

pub cleaning-Gate : Gate cleaning
unfolding next
cleaning-Gate discovered h = ground arith
cleaning-Gate _ h = ground arith

pub candidate-Gate : Gate candidate_green
unfolding next
candidate-Gate discovered h = ground arith
candidate-Gate _ h = ground arith
