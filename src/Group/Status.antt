-- ===== src/Group/Status.antt =====
-- `projectGroupStatus`. The rows are the members in the order of the session, with their
-- identifiers; the set of the blocked members is a list without repetitions.
use issue_orchestration.Prelude.{
  String, Bool, false, List, [], ◌∷◌, ◌++◌, ◌==◌, any, every, filter, map, length, ltb, includes,
  lookup, Result, ok, ◌>>=◌, ◌>>◌, if◌then◌else◌,
}
use issue_orchestration.Group.Session.{
  Session, GroupMember, GroupCode, is_green, require_session, found, type_error,
}
use issue_orchestration.Group.Operations.{is_pending}

pub data GroupStatus : Type 0 where
  group_member_human_decision_pending group_green group_in_progress : GroupStatus

pub record Status : Type 0 where
  pub status : GroupStatus
  pub green : Bool
  pub pending_human_members : List String
  pub blocked_members : List String

unfoldable pub rows_in :
    List (String × GroupMember) → List String → Result GroupCode (List (String × GroupMember))
rows_in entries [] = ok []
rows_in entries (id ∷ ids) = do
  m ← found type_error (lookup entries id)
  rest ← rows_in entries ids
  ok ((id, m) ∷ rest)

-- memberOrder.slice(memberIndex(session, id) + 1)
unfoldable pub rows_after : List (String × GroupMember) → String → List (String × GroupMember)
rows_after [] id = []
rows_after ((j, m) ∷ rows) id = let rest = rows_after rows id in if j == id then rows else rest

-- conflictKeys.some((key) => pendingKeys.includes(key))
unfoldable pub shares_key : List String → GroupMember → Bool
shares_key pending_keys m = any (λ key. includes pending_keys key) m.conflict_keys

-- blocked.add(id)
unfoldable pub add : String → List String → List String
add id blocked = if includes blocked id then blocked else blocked ++ id ∷ []

-- The inner loop.
unfoldable pub block_rows : List String → List (String × GroupMember) → List String → List String
block_rows pending_keys [] blocked = blocked
block_rows pending_keys ((id, m) ∷ rows) blocked =
    block_rows pending_keys rows (if shares_key pending_keys m then add id blocked else blocked)

-- The outer loop, over the rows that are pending.
unfoldable pub block_all :
    List (String × GroupMember) → List (String × GroupMember) → List String → List String
block_all rows [] blocked = blocked
block_all rows ((id, m) ∷ pending) blocked =
    block_all rows pending (block_rows m.conflict_keys (rows_after rows id) blocked)

unfoldable pub pending_rows : List (String × GroupMember) → List (String × GroupMember)
pending_rows rows = filter (λ row. is_pending row.1.status) rows

unfoldable pub status_of_rows : List (String × GroupMember) → Status
status_of_rows rows =
    let pending = pending_rows rows in
    let green = every (λ row. is_green row.1.status) rows in
    if ltb 0 (length pending)
    then record {
      status = group_member_human_decision_pending;
      green = false;
      pending_human_members = map (λ row. row.0) pending;
      blocked_members = block_all rows pending [];
    }
    else record {
      status = if green then group_green else group_in_progress;
      green = green;
      pending_human_members = [];
      blocked_members = [];
    }

-- projectGroupStatus
unfoldable pub project_group_status : Session → Result GroupCode Status
project_group_status s = do
  require_session s
  rows ← rows_in s.members s.member_order
  ok (status_of_rows rows)
