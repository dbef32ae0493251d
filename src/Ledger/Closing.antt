-- ===== src/Ledger/Closing.antt =====
-- How the table lets a node enter and leave the statuses `closed` and `terminal`.
use issue_orchestration.Prelude.{
  String, Bool, true, some, List, [], ◌∷◌, ◌==◌, ◌≡◌, refl, arith, not, ◌||◌, any, every, find,
  includes, eq_iff, ◌⊎◌, inl, inr, Bool-cases, ap, sym, ◌∙◌,
}
use issue_orchestration.Ledger.Rules.{Rule, rules, transition_table, allows, permitted}

-- The events whose rule is `['*', '*']` or that recover a terminal node.
abbrev pub wildcards : List String
wildcards =
    "writer-stage.checkpoint-recorded" ∷ "writer-stage.continuation-recorded"
    ∷ "ledger.correction-recorded" ∷ "dag.proposal-accepted" ∷ "dag.proposal-rejected"
    ∷ "route.reclassified" ∷ "node.terminal-recovered" ∷ []

-- A pair of a rule that enters `closed` starts from `cleaning` or `closed`.
closes_late : String × String → Bool
closes_late (from_allowed, to_allowed) =
    not (to_allowed == "*" || to_allowed == "closed")
    || from_allowed == "cleaning"
    || from_allowed == "closed"

rule_closes_late : Rule → Bool
unfolding closes_late every includes
rule_closes_late r = includes wildcards r.event_type || every closes_late r.transitions

all-close-late : every rule_closes_late rules ≡ true
unfolding every rule_closes_late closes_late includes rules
all-close-late = refl

found-every :
    (p q : Rule → Bool) (rs : List Rule) (r : Rule)
    → every p rs ≡ true
    → find q rs ≡ some r
    → (p r ≡ true) × (q r ≡ true)
unfolding every find
found-every p q [] r h f = cc
found-every p q (x ∷ rs) r h f = elim (Bool-cases (q x)) [
  | inl t ↦
      let same : x ≡ r = ground (arith, t) in (ap p (sym same) ∙ ground arith, ap q (sym same) ∙ t)
  | inr t ↦ found-every p q rs r (ground arith) (ground (arith, t))
]

pair-closes :
    (pairs : List (String × String)) (from_state : String)
    → every closes_late pairs ≡ true
    → any (allows from_state "closed") pairs ≡ true
    → (from_state ≡ "cleaning") ⊎ (from_state ≡ "closed")
unfolding every any allows closes_late
pair-closes [] from_state h a = cc
pair-closes ((x, y) ∷ pairs) from_state h a =
    elim (Bool-cases (allows from_state "closed" (x, y))) [
      | inl t ↦ elim (Bool-cases (x == "cleaning")) [
        | inl c ↦
            let d : x ≡ "cleaning" = ground (arith, c, eq_iff x "cleaning") in
            let u : allows from_state "closed" ("cleaning", y) ≡ true =
              ap (λ z. allows from_state "closed" (z, y)) (sym d) ∙ t in
            inl (ground (arith, u, eq_iff "cleaning" from_state))
        | inr c ↦
            let d : x ≡ "closed" = ground (arith, t, c, eq_iff x "closed", eq_iff y "closed") in
            let u : allows from_state "closed" ("closed", y) ≡ true =
              ap (λ z. allows from_state "closed" (z, y)) (sym d) ∙ t in
            inr (ground (arith, u, eq_iff "closed" from_state))
      ]
      | inr t ↦ pair-closes pairs from_state (ground arith) (ground (arith, t))
    ]

-- An event that the table permits to lead into `closed` starts from `cleaning` or `closed`, unless
-- it is one of the seven types whose rule has `*` for its target.
pub closed_from_cleaning :
    (event_type from_state : String) (r : Rule)
    → transition_table event_type ≡ some r
    → permitted r from_state "closed" ≡ true
    → (from_state ≡ "cleaning") ⊎ ((from_state ≡ "closed") ⊎ (includes wildcards event_type ≡ true))
unfolding transition_table permitted rule_closes_late
closed_from_cleaning event_type from_state r known allowed =
    let (late, named) =
      found-every rule_closes_late (λ q. q.event_type == event_type) rules r all-close-late known in
    elim (Bool-cases (includes wildcards r.event_type)) [
      | inl w ↦
          let same : r.event_type ≡ event_type =
            ground (arith, named, eq_iff r.event_type event_type) in
          inr (inr (ap (includes wildcards) (sym same) ∙ w))
      | inr w ↦ elim (pair-closes r.transitions from_state (ground (arith, late, w)) allowed) [
        | inl c ↦ inl c
        | inr c ↦ inr (inl c)
      ]
    ]
