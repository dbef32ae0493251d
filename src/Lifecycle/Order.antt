-- ===== src/Lifecycle/Order.antt =====
-- `assertLifecycleTransition` against the table: what it lets pass is an edge between named states.
use issue_orchestration.Prelude.{
  String, ◌≡◌, refl, Memᴰ, inl, inr, true, some, List, [], ◌∷◌, ◌==◌, arith, eq_iff, map, includes,
  find-eq-some, ok, Bool-cases, Option-cases,
}
use issue_orchestration.Lifecycle.Definitions.{State, discovered, next}
use issue_orchestration.Lifecycle.Names.{
  lifecycle_states, state_name, state_of, assert_lifecycle_transition,
}

-- An edge of the table, between the names of its states.
pub record Edge (from_state to_state : String) : Type 0 where
  pub source : State
  pub target : State
  pub source_name : from_state ≡ state_name source
  pub target_name : to_state ≡ state_name target
  pub listed : Memᴰ target (next source)

pub state_of-eq : (name : String) (s : State) → state_of name ≡ some s → name ≡ state_name s
unfolding state_of
state_of-eq name s h = ground (
  arith,
  eq_iff (state_name s) name,
  find-eq-some (λ (u : State). state_name u == name) lifecycle_states s h,
)

pub state_of-state_name : (s : State) → state_of (state_name s) ≡ some s
unfolding state_of
state_of-state_name discovered = refl
state_of-state_name _ = refl

-- A name among the names of a list of states is that of one of them.
includes-map :
    (xs : List State) (name : String)
    → includes (map state_name xs) name ≡ true
    → (t : State) × (name ≡ state_name t) × Memᴰ t xs
unfolding includes
includes-map [] name h = cc
includes-map (x ∷ xs) name h = elim (Bool-cases (state_name x == name)) [
  | inl e ↦ (x, ground (arith, eq_iff (state_name x) name), Memᴰ.head refl)
  | inr e ↦ let (t, n, i) = includes-map xs name (ground arith) in (t, n, Memᴰ.tail i)
]

-- A transition that passes is an edge of the table.
pub assert_lifecycle_transition-Edge :
    (from_state to_state : String) {r : String × String}
    → assert_lifecycle_transition from_state to_state ≡ ok r
    → Edge from_state to_state
unfolding assert_lifecycle_transition
assert_lifecycle_transition-Edge from_state to_state h = elim (Option-cases (state_of from_state)) [
  | inl e ↦ absurd (ground arith)
  | inr (s, e) ↦
      let (t, n, i) = includes-map (next s) to_state (ground arith) in
      record {
        source = s;
        target = t;
        source_name = state_of-eq from_state s e;
        target_name = n;
        listed = i;
      }
]
