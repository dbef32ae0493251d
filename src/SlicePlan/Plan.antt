-- ===== src/SlicePlan/Plan.antt =====
-- A proposal of slices and the checks of one slice. A text that is missing is the empty text, a list
-- that is missing is empty, and a bound that is no integer, or is negative, is zero.
use issue_orchestration.Prelude.{
  ℕ, zero, suc, String, Bool, true, false, Option, List, [], ◌∷◌, ◌++◌, ◌==◌, not, ◌&&◌, ◌||◌, any,
  filter, length, ltb, eqb, includes, codes, starts_with, same_codes, if◌then◌else◌, Result, ok,
  reject, ◌>>◌,
}

pub data SliceCode : Type 0 where
  slice_proposal_acceptance_contract slice_proposal_dependency_graph : SliceCode
  slice_proposal_dependency_cycle slice_proposal_authority : SliceCode
  slice_proposal_objective slice_proposal_paths slice_proposal_slices : SliceCode
  slice_proposal_slice_identity slice_proposal_acceptance_exactness : SliceCode
  slice_proposal_whole_issue slice_proposal_path_boundary slice_proposal_first_action : SliceCode
  slice_proposal_capacity slice_proposal_acceptance_owner : SliceCode
  slice_proposal_command_exactness slice_proposal_command_owner : SliceCode
  slice_proposal_evidence_exactness slice_proposal_evidence_owner slice_proposal_digest : SliceCode
  of_actor : String → SliceCode

pub record Acceptance : Type 0 where
  pub schema : String
  pub status : String
  pub executable_acceptance_ids : List String
  pub contract_digest : String

pub record Slice : Type 0 where
  pub slice_id : String
  pub objective : String
  pub acceptance_ids : List String
  pub allowed_paths : List String
  pub first_required_action : String
  pub required_commands : List String
  pub required_evidence : List String
  pub max_changed_files : ℕ
  pub max_owned_modules : ℕ

pub record SliceProposal : Type 0 where
  pub schema : String
  pub proposal_authored_by : String
  pub root_authored : Option Bool
  pub acceptance_contract_digest : String
  pub objective : String
  pub allowed_paths : List String
  pub forbidden_paths : List String
  pub ordered_slices : List Slice
  pub slice_dependency_graph : List (String × List String)
  pub required_commands : List String
  pub required_evidence : List String
  pub proposal_digest : String

-- The order of texts by their code points.
unfoldable pub codes_leb : List ℕ → List ℕ → Bool
codes_leb [] d = true
codes_leb (x ∷ c) [] = false
codes_leb (x ∷ c) (y ∷ d) = ltb x y || (eqb x y && codes_leb c d)

unfoldable pub insert_text : String → List String → List String
insert_text x [] = x ∷ []
insert_text x (y ∷ ys) =
    let rest = insert_text x ys in if codes_leb (codes x) (codes y) then x ∷ y ∷ ys else y ∷ rest

-- values.sort()
unfoldable pub sorted : List String → List String
sorted [] = []
sorted (x ∷ xs) = insert_text x (sorted xs)

-- [...new Set(values)]
unfoldable pub unique : List String → List String
unique [] = []
unique (x ∷ xs) = x ∷ filter (λ y. not (x == y)) (unique xs)

-- uniqueSorted
unfoldable pub unique_sorted : List String → List String
unique_sorted xs = sorted (unique xs)

-- sameValue, of two lists of texts
unfoldable pub same_value : List String → List String → Bool
same_value [] [] = true
same_value (x ∷ xs) (y ∷ ys) = x == y && same_value xs ys
same_value _ _ = false

abbrev is_slash_end : ℕ → List ℕ → Bool
is_slash_end c [] = eqb c b'/'
is_slash_end c (d ∷ cs) = false

-- allowed.replace(/\/$/u, '')
unfoldable pub strip_slash : List ℕ → List ℕ
strip_slash [] = []
strip_slash (c ∷ cs) = let rest = strip_slash cs in if is_slash_end c cs then [] else c ∷ rest

-- pathAllowed
unfoldable pub path_allowed : String → List String → List String → Bool
path_allowed target allowed_paths forbidden_paths =
    any
      (λ allowed.
        target == allowed || starts_with (codes target) (strip_slash (codes allowed) ++ b'/' ∷ []))
      allowed_paths
    && not
        (any (λ entry. target == entry || starts_with (codes target) (codes entry)) forbidden_paths)

unfoldable pub drop : ℕ → List ℕ → List ℕ
drop zero cs = cs
drop (suc n) [] = []
drop (suc n) (c ∷ cs) = drop n cs

-- validFirst
unfoldable pub valid_first : Slice → Bool
valid_first slice =
    if starts_with (codes slice.first_required_action) (codes "write:")
    then any (λ path. same_codes (codes path) (drop 6 (codes slice.first_required_action)))
        slice.allowed_paths
    else includes slice.required_commands slice.first_required_action

-- assertText
unfoldable pub assert_text : String → SliceCode → Result SliceCode (Unit {0})
assert_text s code = reject (s == "") code

-- assertArray, with `min: 1`
unfoldable pub assert_array : List String → SliceCode → Result SliceCode (Unit {0})
assert_array xs code = reject (ltb (length xs) 1) code

-- The body of the loop over the slices.
unfoldable pub check_slice : Acceptance → SliceProposal → Slice → Result SliceCode (Unit {0})
unfolding assert_text assert_array
check_slice acceptance proposal slice = do
  assert_text slice.objective slice_proposal_objective
  assert_array slice.acceptance_ids slice_proposal_acceptance_exactness
  reject
      (ltb 1 (length acceptance.executable_acceptance_ids)
        && same_value (unique_sorted slice.acceptance_ids)
            (unique_sorted acceptance.executable_acceptance_ids))
      slice_proposal_whole_issue
  assert_array slice.allowed_paths slice_proposal_paths
  reject
      (any (λ target. not (path_allowed target proposal.allowed_paths proposal.forbidden_paths))
        slice.allowed_paths)
      slice_proposal_path_boundary
  assert_text slice.first_required_action slice_proposal_first_action
  reject (not (valid_first slice)) slice_proposal_first_action
  reject (ltb slice.max_changed_files 1 || ltb slice.max_owned_modules 1) slice_proposal_capacity

unfoldable pub check_slices : Acceptance → SliceProposal → List Slice → Result SliceCode (Unit {0})
check_slices acceptance proposal [] = ok tt
check_slices acceptance proposal (slice ∷ slices) = do
  check_slice acceptance proposal slice
  check_slices acceptance proposal slices
