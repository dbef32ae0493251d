-- ===== src/Landing/Members.antt =====
-- The members in the order of the green commits.
use issue_orchestration.Prelude.{
  String, true, false, Option, some, none, List, [], ◌∷◌, ◌==◌, ◌≡◌, sym, subst, ap₂, arith, map,
  Memᴰ, Distinct, same, same-eq, is_distinct-Distinct, eq_refl, eq_iff, length, Option-cases,
  Bool-cases, inl, inr, ok, >>=-eq-ok,
}
use issue_orchestration.Landing.Handoff.{
  Handoff, HandoffMember, by_commit, member_of, texts, ordered_members, validate_handoff,
}

abbrev pub keys : List (String × HandoffMember) → List String
keys [] = []
keys ((id, m) ∷ entries) = id ∷ keys entries

abbrev pub commit : Option HandoffMember → Option String
commit none = none
commit (some m) = m.commit_sha

by_commit-key :
    (entries : List (String × HandoffMember)) (c id : String)
    → by_commit entries c ≡ some id
    → Memᴰ id (keys entries)
unfolding by_commit
by_commit-key [] c id h = cc
by_commit-key ((j, m) ∷ entries) c id h = elim (Option-cases (by_commit entries c)) [
  | inr (later, e) ↦ Memᴰ.tail (by_commit-key entries c id (ground (arith, e)))
  | inl e ↦ Memᴰ.head (ground (arith, e))
]

by_commit-commit :
    (entries : List (String × HandoffMember)) (c id : String)
    → Distinct (keys entries)
    → by_commit entries c ≡ some id
    → commit (member_of entries id) ≡ some c
unfolding by_commit member_of
by_commit-commit [] c id d h = cc
by_commit-commit ((j, m) ∷ entries) c id d h = elim (Option-cases (by_commit entries c)) [
  | inr (later, e) ↦
      let found : by_commit entries c ≡ some id = ground (arith, e) in
      let other : (j == id) ≡ false = elim (Bool-cases (j == id)) [
        | inl t ↦
            let s : j ≡ id = ground (arith, t, eq_iff j id) in
            absurd
              (d.0 (subst (λ x. Memᴰ x (keys entries)) (sym s) (by_commit-key entries c id found)))
        | inr t ↦ t
      ] in
      rw other (by_commit-commit entries c id d.1 found)
  | inl e ↦
      let j_is : j ≡ id = ground (arith, e) in
      let matches : same m.commit_sha (some c) ≡ true = ground (arith, e) in
      let here : (j == id) ≡ true = rw j_is (eq_refl id) in
      rw here (same-eq m.commit_sha (some c) matches)
]

texts-commits :
    (entries : List (String × HandoffMember)) (cs ids : List String)
    → Distinct (keys entries)
    → texts (map (by_commit entries) cs) ≡ ok ids
    → map (λ id. commit (member_of entries id)) ids ≡ map some cs
unfolding texts
texts-commits entries [] ids d h = ground arith
texts-commits entries (c ∷ cs) ids d h = elim (Option-cases (by_commit entries c)) [
  | inl e ↦ absurd (ground (arith, e))
  | inr (id, e) ↦
      let (rest, more, same_ids) =
        >>=-eq-ok (texts (map (by_commit entries) cs)) (λ r. ok (id ∷ r)) {b = ids}
          (ground (arith, e)) in
      let s : ids ≡ id ∷ rest = ground arith in
      rw s (
        ap₂ (λ x xs. x ∷ xs) (by_commit-commit entries c id d e)
          (texts-commits entries cs rest d more))
]

-- A hand-off that is accepted, of a mapping with a member for each of its keys, gives the members
-- in the order of the green commits: the commit of each is the green commit at its place. They are
-- as many as the mapping has, and none comes twice.
pub validate_handoff-commits :
    (h : Handoff) (members : List String)
    → Distinct (keys h.member_mapping)
    → validate_handoff h ≡ ok members
    → (map (λ id. commit (member_of h.member_mapping id)) members
        ≡ map some h.ordered_green_commit_prefix)
      × (Distinct members × (length members ≡ length h.member_mapping))
unfolding validate_handoff ordered_members
validate_handoff-commits h members d v = (
  texts-commits h.member_mapping h.ordered_green_commit_prefix members d (ground arith),
  (is_distinct-Distinct members (ground arith), ground arith),
)
