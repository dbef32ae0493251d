-- ===== src/Lifecycle/Demands.antt =====
-- The receipts that the definitions ask for on the way to `closed`.
use issue_orchestration.Prelude.{
  String, arith, every, ◌&&◌, ◌++◌, ◌≡◌, refl, true, some, List, [], ◌∷◌, Memᴰ, All, includes, ok,
  >>=-eq-ok, map,
}
use issue_orchestration.Lifecycle.Definitions.{
  State, candidate_green, behavior_green, delivering, cleaning, closed, required_receipts,
  allowed_receipts, next,
}
use issue_orchestration.Lifecycle.Names.{
  Definition, state_name, lifecycle_definition, assert_lifecycle_transition,
}
use issue_orchestration.Lifecycle.Order.{state_of-state_name}
use issue_orchestration.Lifecycle.Paths.{walk, closed_passes_gates}

-- Some state among the names has the receipt among those that it requires and those it allows.
pub record Demanded (names : List String) (receipt : String) : Type 0 where
  pub name : String
  pub definition : Definition
  pub passed : Memᴰ name names
  pub defined : lifecycle_definition name ≡ some definition
  pub required : includes definition.required receipt ≡ true
  pub allowed : includes definition.allowed receipt ≡ true

definition_of :
    (s : State)
    → lifecycle_definition (state_name s)
      ≡ some (record {
        required = required_receipts s;
        allowed = allowed_receipts s;
        successors = map state_name (next s);
      })
unfolding lifecycle_definition
definition_of s = ground (arith, state_of-state_name s)

-- The receipts that a state on the way requires and allows, before others.
state_asks :
    (s : State) (names receipts more : List String)
    → Memᴰ (state_name s) names
    → every (λ r. includes (required_receipts s) r && includes (allowed_receipts s) r) receipts
      ≡ true
    → All (Demanded names) more
    → All (Demanded names) (receipts ++ more)
unfolding every
state_asks s names [] more passed h others = others
state_asks s names (receipt ∷ receipts) more passed h others = (
  record {
    name = state_name s;
    definition = record {
      required = required_receipts s;
      allowed = allowed_receipts s;
      successors = map state_name (next s);
    };
    passed = passed;
    defined = definition_of s;
    required = ground arith;
    allowed = ground arith;
  },
  state_asks s names receipts more passed (ground arith) others,
)

walk_ends :
    (name t : String) (ts : List String) {last : String}
    → walk name (t ∷ ts) ≡ ok last
    → Memᴰ last (t ∷ ts)
unfolding walk
walk_ends name t [] h =
    let (r, passed, rest) = >>=-eq-ok (assert_lifecycle_transition name t) (λ _. walk t []) h in
    Memᴰ.head cc
walk_ends name t (u ∷ us) h =
    let (r, passed, rest) =
      >>=-eq-ok (assert_lifecycle_transition name t) (λ _. walk t (u ∷ us)) h in
    Memᴰ.tail (walk_ends t u us rest)

closed_named : (names : List String) → walk "discovered" names ≡ ok "closed" → Memᴰ "closed" names
unfolding walk
closed_named [] h = cc
closed_named (t ∷ ts) h = walk_ends "discovered" t ts h

abbrev at_candidate_green : List String
at_candidate_green =
    "requirementInventory" ∷ "acceptanceContract" ∷ "testContractPlan" ∷ "workPlan"
    ∷ "executableSlice" ∷ "routeDecision" ∷ "implementationTerminal" ∷ "candidate" ∷ []

abbrev at_behavior_green : List String
at_behavior_green = "behavior" ∷ []

abbrev at_delivering : List String
at_delivering = "deliveryAttempt" ∷ []

abbrev at_cleaning : List String
at_cleaning = "delivery" ∷ "cleanupAuthorization" ∷ []

abbrev at_closed : List String
at_closed = "cleanup" ∷ "closure" ∷ []

-- What a member has been asked for when it is closed.
abbrev pub asked_for : List String
asked_for = at_candidate_green ++ at_behavior_green ++ at_delivering ++ at_cleaning ++ at_closed

-- On each way from `discovered` to `closed` that `assertLifecycleTransition` lets through, each of
-- `requirementInventory`, `acceptanceContract`, `testContractPlan`, `workPlan`, `executableSlice`,
-- `routeDecision`, `implementationTerminal`, `candidate`, `behavior`, `deliveryAttempt`, `delivery`,
-- `cleanupAuthorization`, `cleanup` and `closure` is required, and allowed, by the definition of a
-- state on the way.
pub closed_demands :
    (names : List String) → walk "discovered" names ≡ ok "closed" → All (Demanded names) asked_for
unfolding state_name includes every required_receipts allowed_receipts
closed_demands names h =
    let (candidate, behavior, delivery, cleanup) = closed_passes_gates names h in
    let closing = state_asks closed names at_closed [] (closed_named names h) refl tt in
    let cleaned = state_asks cleaning names at_cleaning at_closed cleanup refl closing in
    let delivered =
      state_asks delivering names at_delivering (at_cleaning ++ at_closed) delivery refl cleaned in
    let behaved =
      state_asks behavior_green names at_behavior_green (at_delivering ++ at_cleaning ++ at_closed)
        behavior refl delivered in
    state_asks candidate_green names at_candidate_green
      (at_behavior_green ++ at_delivering ++ at_cleaning ++ at_closed) candidate refl behaved
