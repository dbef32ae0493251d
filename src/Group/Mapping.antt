-- ===== src/Group/Mapping.antt =====
-- The member mapping of a hand-off, against what `validateHandoff` asks of it.
use issue_orchestration.Prelude.{
  String, Bool, true, false, Option, some, none, List, [], ◌∷◌, ◌==◌, ◌≡◌, refl, sym, subst, ap₂,
  arith, not, any, every, map, length, includes, is_distinct, same, is_sha, is_printed, eq_refl,
  lookup, every-lookup, Bool-cases, Option-cases, inl, inr, ok, >>=-eq-ok,
}
use issue_orchestration.Landing.Handoff.{HandoffMember, by_commit, member_of, texts, bad_member}
use issue_orchestration.Group.Session.{GroupMember, CandidateIdentity, is_green, receipts_are_green}
use issue_orchestration.Group.Commits.{
  members_in, commits_of, member_mapping_of, receipt_digests_of,
}
use issue_orchestration.Group.Sound.{fits}

-- The entries stand for the members in their order, each with its commit.
pub data Backs : List String → List String → List (String × HandoffMember) → Type 0 where
  nil : Backs [] [] []
  cons :
      {ids commits : List String} {entries : List (String × HandoffMember)}
      → (id commit : String) (m : HandoffMember) → m.commit_sha ≡ some commit
      → is_sha (some commit) ≡ true
      → bad_member (some m) ≡ false
      → Backs ids commits entries
      → Backs (id ∷ ids) (commit ∷ commits) ((id, m) ∷ entries)

not_committed :
    {ids commits : List String} {entries : List (String × HandoffMember)} (c : String)
    → Backs ids commits entries
    → includes commits c ≡ false
    → by_commit entries c ≡ none
unfolding by_commit includes same
not_committed c Backs.nil h = refl
not_committed c (Backs.cons id commit m e sha good b) h = ground (arith, not_committed c b, e, h)

-- What more entries leave as it is.
extended :
    (entries : List (String × HandoffMember)) (id : String) (m : HandoffMember)
    (cs ids : List String)
    → map (by_commit entries) cs ≡ map some ids
    → map (by_commit ((id, m) ∷ entries)) cs ≡ map some ids
unfolding by_commit
extended entries id m [] ids h = h
extended entries id m (c ∷ cs) [] h = cc
extended entries id m (c ∷ cs) (j ∷ ids) h =
    let a : by_commit entries c ≡ some j = ground (arith, h) in
    let b : map (by_commit entries) cs ≡ map some ids = ground (arith, h) in
    ap₂ (λ x xs. x ∷ xs) (rw a refl) (extended entries id m cs ids b)

pub by_commits :
    {ids commits : List String} {entries : List (String × HandoffMember)}
    → Backs ids commits entries
    → is_distinct commits ≡ true
    → map (by_commit entries) commits ≡ map some ids
unfolding is_distinct
by_commits Backs.nil d = refl
by_commits (Backs.cons {ids} {commits} {entries} id commit m e sha good b) d =
    let fresh = not_committed commit b (ground (arith, d)) in
    let here : by_commit ((id, m) ∷ entries) commit ≡ some id =
      unfold by_commit in unfold same in ground (arith, fresh, e, eq_refl commit) in
    ap₂ (λ x xs. x ∷ xs) here (extended entries id m commits ids (by_commits b (ground (arith, d))))

pub texts-printed :
    (ids : List String) → every is_printed ids ≡ true → texts (map some ids) ≡ ok ids
unfolding texts every
texts-printed [] h = refl
texts-printed (x ∷ ids) h = ground (arith, texts-printed ids)

pub Backs-length :
    {ids commits : List String} {entries : List (String × HandoffMember)}
    → Backs ids commits entries
    → length ids ≡ length entries
Backs-length Backs.nil = refl
Backs-length (Backs.cons id commit m e sha good b) = omega (arith, Backs-length b)

pub Backs-sha :
    {ids commits : List String} {entries : List (String × HandoffMember)}
    → Backs ids commits entries
    → any (λ c. not (is_sha (some c))) commits ≡ false
unfolding any
Backs-sha Backs.nil = refl
Backs-sha (Backs.cons id commit m e sha good b) = ground (arith, Backs-sha b, sha)

good_member :
    {ids commits : List String} {entries : List (String × HandoffMember)} (j : String)
    → Backs ids commits entries
    → includes ids j ≡ true
    → bad_member (member_of entries j) ≡ false
unfolding includes member_of
good_member j Backs.nil h = cc
good_member j (Backs.cons id commit m e sha good b) h = elim (Bool-cases (id == j)) [
  | inl t ↦ rw t good
  | inr t ↦ rw t (good_member j b (ground (arith, h, t)))
]

none_of :
    (p : String → Bool) (xs : List String)
    → ((x : String) → includes xs x ≡ true → p x ≡ false)
    → any p xs ≡ false
unfolding any includes
none_of p [] h = refl
none_of p (x ∷ xs) h =
    let here : p x ≡ false = h x (ground (arith, eq_refl x)) in
    let later = none_of p xs (λ y i. h y (ground (arith, i))) in ground (arith, here, later)

pub good_members :
    {ids commits : List String} {entries : List (String × HandoffMember)}
    → Backs ids commits entries
    → any (λ id. bad_member (member_of entries id)) ids ≡ false
good_members {ids} {commits} {entries} b =
    none_of (λ id. bad_member (member_of entries id)) ids (λ j i. good_member j b i)

abbrev entry_of : GroupMember → Option String → HandoffMember
entry_of m candidate_sha = record {
  commit_sha = m.commit_sha;
  candidate_sha = candidate_sha;
  test_contract_digest = m.test_contract_digest;
  receipt_digests = some (receipt_digests_of m.receipts);
}

good_entry :
    (m : GroupMember)
    → fits m ≡ true
    → is_green m.status ≡ true
    → (c : CandidateIdentity) × ((m.candidate_identity ≡ some c)
        × (bad_member (some (entry_of m c.candidate_sha)) ≡ false))
unfolding fits receipts_are_green bad_member receipt_digests_of any
good_entry m f g = elim (Option-cases m.candidate_identity) [
  | inl e ↦ absurd (ground (arith, e))
  | inr (c, e) ↦ (c, (e, ground (arith, e)))
]

-- The mapping of members that are green.
pub mapped :
    (entries : List (String × GroupMember)) (ids : List String) (ms : List GroupMember)
    → every (λ e. fits e.1) entries ≡ true
    → members_in entries ids ≡ ok ms
    → any (λ m. not (is_sha m.commit_sha)) ms ≡ false
    → any (λ m. not (is_green m.status)) ms ≡ false
    → (mapping : List (String × HandoffMember)) × ((member_mapping_of entries ids ≡ ok mapping)
        × Backs ids (commits_of ms) mapping)
unfolding members_in member_mapping_of commits_of any is_sha
mapped entries [] [] f h c g = ([], (refl, Backs.nil))
mapped entries [] (m ∷ ms) f h c g = cc
mapped entries (id ∷ ids) [] f h c g = elim (Option-cases (lookup entries id)) [
  | inl e ↦ absurd (ground (arith, e))
  | inr (m, e) ↦ absurd (ground (arith, e))
]
mapped entries (id ∷ ids) (n ∷ ms) f h c g = elim (Option-cases (lookup entries id)) [
  | inl e ↦ absurd (ground (arith, e))
  | inr (m, e) ↦
      let (rest, more, last) =
        >>=-eq-ok (members_in entries ids) (λ r. ok (m ∷ r)) {b = n ∷ ms} (ground (arith, e)) in
      let at : lookup entries id ≡ some n = ground (arith, e, last) in
      let tails : members_in entries ids ≡ ok ms = ground (arith, more, last) in
      let (mapping, (maps, b)) =
        mapped entries ids ms f tails (ground (arith, c)) (ground (arith, g)) in
      let (candidate, (has_candidate, good)) =
        good_entry n (every-lookup fits id n entries f at) (ground (arith, g)) in
      let whole : member_mapping_of entries (id ∷ ids)
          ≡ ok ((id, entry_of n candidate.candidate_sha) ∷ mapping) =
        ground (arith, at, maps, has_candidate) in
      elim (Option-cases n.commit_sha) [
        | inl none_yet ↦ absurd (ground (arith, c, none_yet))
        | inr (commit, is) ↦
            let all : commits_of (n ∷ ms) ≡ commit ∷ commits_of ms = ground (arith, is) in
            (
              (id, entry_of n candidate.candidate_sha) ∷ mapping,
              (
                whole,
                subst
                    (λ cs. Backs (id ∷ ids) cs ((id, entry_of n candidate.candidate_sha) ∷ mapping))
                    (sym all)
                    (Backs.cons id commit (entry_of n candidate.candidate_sha) is
                      (ground (arith, c, is)) good b),
              ),
            )
      ]
]
