-- ===== src/Lifecycle/Paths.antt =====
-- Runs of `assertLifecycleTransition`: they end, and a member that is closed has gone through the
-- stages before it.
use issue_orchestration.Prelude.{
  ◌+◌, ◌≤◌, String, ◌≡◌, ◌≢◌, ◌<◌, refl, sym, ap, subst, List, [], ◌∷◌, map, Memᴰ, arith, Result,
  ok, ◌>>◌, length, >>=-eq-ok, suc,
}
use issue_orchestration.Lifecycle.Definitions.{
  State, discovered, candidate_green, behavior_green, delivering, cleaning, closed, next,
}
use issue_orchestration.Lifecycle.Names.{Code, state_name, state_of, assert_lifecycle_transition}
use issue_orchestration.Lifecycle.Order.{assert_lifecycle_transition-Edge, state_of-state_name}
use issue_orchestration.Lifecycle.Routes.{
  Route, here, step, stage, Gate, Route-bounded, Route-gate, candidate-Gate, behavior-Gate,
  delivering-Gate, cleaning-Gate,
}

-- A run of transitions, each let through by `assertLifecycleTransition`.
unfoldable pub walk : String → List String → Result Code String
walk name [] = ok name
walk name (t ∷ ts) = do assert_lifecycle_transition name t; walk t ts

pub state_name-injective : (s t : State) → state_name s ≡ state_name t → s ≡ t
state_name-injective s t e = cc (ap state_of e, state_of-state_name s, state_of-state_name t)

pub record Trace (s : State) (names : List String) (last : String) : Type 0 where
  pub states : List State
  pub end : State
  pub route : Route s states end
  named : names ≡ map state_name states
  pub ends : last ≡ state_name end

-- The run of a member is a route of the table.
pub walk-Trace :
    (s : State) (names : List String) {last : String}
    → walk (state_name s) names ≡ ok last
    → Trace s names last
unfolding walk
walk-Trace s [] h = record { states = []; end = s; route = here; named = refl; ends = cc }
walk-Trace s (t ∷ ts) {last} h =
    let (r, passed, rest) =
      >>=-eq-ok (assert_lifecycle_transition (state_name s) t) (λ _. walk t ts) h in
    let e = assert_lifecycle_transition-Edge (state_name s) t passed in
    let tail = walk-Trace e.target ts (subst (λ n. walk n ts ≡ ok last) e.target_name rest) in
    record {
      states = e.target ∷ tail.states;
      end = tail.end;
      route =
          step
            (subst (λ v. Memᴰ e.target (next v))
              (sym (state_name-injective s e.source e.source_name)) e.listed)
            tail.route;
      named = cc (e.target_name, tail.named);
      ends = tail.ends;
    }

length-map : (states : List State) → length (map state_name states) ≡ length states
length-map [] = refl
length-map (s ∷ states) = ap suc (length-map states)

stage-le : (s : State) → stage s ≤ 15
stage-le discovered = omega arith
stage-le _ = omega arith

Memᴰ-map :
    {s : State} (states : List State) → Memᴰ s states → Memᴰ (state_name s) (map state_name states)
Memᴰ-map [] m = elim m [ ]
Memᴰ-map (t ∷ states) (Memᴰ.head e) = Memᴰ.head (ap state_name e)
Memᴰ-map (t ∷ states) (Memᴰ.tail m) = Memᴰ.tail (Memᴰ-map states m)

-- The run of a member that stands at a state is at most as long as the stages that are left, so
-- it makes fifteen transitions at most.
pub walk_bounded :
    (s : State) (names : List String) {last : String}
    → walk (state_name s) names ≡ ok last
    → length names + stage s ≤ 15
walk_bounded s names h =
    let trace = walk-Trace s names h in
    omega (
      arith,
      ap (λ (l : List String). length l) trace.named,
      length-map trace.states,
      Route-bounded trace.route,
      stage-le trace.end,
    )

gate_passed :
    (g : State) (names : List String)
    → Gate g
    → g ≢ closed
    → 0 < stage g
    → stage g < 15
    → walk "discovered" names ≡ ok "closed"
    → Memᴰ (state_name g) names
unfolding state_name
gate_passed g names gate other above low h =
    let trace = walk-Trace discovered names h in
    let ended = state_name-injective trace.end closed (sym trace.ends) in
    subst (λ l. Memᴰ (state_name g) l) (sym trace.named)
      (Memᴰ-map trace.states (Route-gate g gate other low trace.route ended above))

-- A member that is discovered and then closed has been through `candidate-green`,
-- `behavior-green`, `delivering` and `cleaning`.
pub closed_passes_gates :
    (names : List String)
    → walk "discovered" names ≡ ok "closed"
    → Memᴰ "candidate-green" names
      × Memᴰ "behavior-green" names
      × Memᴰ "delivering" names
      × Memᴰ "cleaning" names
unfolding state_name
closed_passes_gates names h = (
  gate_passed candidate_green names candidate-Gate (λ e. cc) (omega arith) (omega arith) h,
  gate_passed behavior_green names behavior-Gate (λ e. cc) (omega arith) (omega arith) h,
  gate_passed delivering names delivering-Gate (λ e. cc) (omega arith) (omega arith) h,
  gate_passed cleaning names cleaning-Gate (λ e. cc) (omega arith) (omega arith) h,
)
