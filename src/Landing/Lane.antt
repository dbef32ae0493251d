-- ===== src/Landing/Lane.antt =====
-- The lane of one repository, which one landing attempt holds at a time. A digest of a lane's body
-- and `Date.parse` are parameters; a text that is no date has no time.
use issue_orchestration.Prelude.{
  ℕ, String, Bool, true, false, Option, some, none, List, [], ◌∷◌, ◌++◌, ◌==◌, ◌≡◌, refl, ap, ◌∙◌,
  arith, not, ◌&&◌, ◌||◌, every, is_printed, is_hash, codes, split_last, eqb, is_space, is_some,
  Result, ok, err, reject, ◌>>◌, eq_refl,
}

pub data LaneCode : Type 0 where
  repository_landing_lane_invalid repository_landing_lease_active : LaneCode
  repository_landing_lease_invalid repository_landing_lease_mismatch : LaneCode
  repository_landing_release_receipt_required : LaneCode

pub data LaneState : Type 0 where
  landing_idle landing_active : LaneState

pub record LandingLease : Type 0 where
  pub attempt_id : String
  pub landing_lease_id : String
  pub owner_identity : String
  pub acquired_at : String

pub record Release : Type 0 where
  pub attempt_id : String
  pub landing_lease_id : String
  pub landing_receipt_digest : String
  pub released_at : String

pub record LaneBody : Type 0 where
  pub schema : String
  pub repository : String
  pub default_branch : String
  pub state : LaneState
  pub active_lease : Option LandingLease
  pub attempt_ids : List String
  pub last_release : Option Release

pub record Lane : Type 0 where
  pub body : LaneBody
  pub lane_digest : String

abbrev pub is_idle : LaneState → Bool
is_idle landing_idle = true
is_idle landing_active = false

abbrev pub holds : Option LandingLease → String → String → Bool
holds none attempt_id landing_lease_id = false
holds (some l) attempt_id landing_lease_id =
    l.attempt_id == attempt_id && l.landing_lease_id == landing_lease_id

-- [^/\\s]
is_name_character : ℕ → Bool
unfolding is_space
is_name_character c = not (eqb c b'/') && not (is_space c)

abbrev is_name : List ℕ → Bool
is_name [] = false
is_name (c ∷ cs) = every is_name_character (c ∷ cs)

abbrev is_pair : Option (List ℕ × List ℕ) → Bool
is_pair none = false
is_pair (some (owner, name)) = is_name owner && is_name name

-- REPOSITORY.test(value)
unfoldable pub is_repository : String → Bool
unfolding codes split_last is_name_character every
is_repository s = is_pair (split_last b'/' (codes s))

module _ (digest : LaneBody → String) where
  -- seal(body, 'laneDigest')
  unfoldable pub seal_lane : LaneBody → Lane
  seal_lane b = record { body = b; lane_digest = digest b }

  -- requireLane
  unfoldable pub require_lane : Lane → Result LaneCode (Unit {0})
  require_lane l = do
    reject (not (l.body.schema == "issue-orchestration.repository-landing-lane.v1"))
        repository_landing_lane_invalid
    reject (not (is_hash (some l.lane_digest))) repository_landing_lane_invalid
    reject (not (digest l.body == l.lane_digest)) repository_landing_lane_invalid

  -- createRepositoryLandingLane
  unfoldable pub create_repository_landing_lane :
      (repository default_branch : String) → Result LaneCode Lane
  create_repository_landing_lane repository default_branch = do
    reject (not (is_repository repository) || not (is_printed default_branch))
        repository_landing_lane_invalid
    ok (
        seal_lane (record {
          schema = "issue-orchestration.repository-landing-lane.v1";
          repository = repository;
          default_branch = default_branch;
          state = landing_idle;
          active_lease = none;
          attempt_ids = [];
          last_release = none;
        }))

module _ (digest : LaneBody → String) (date_parse : String → Option ℕ) where
  -- acquireRepositoryLandingLease
  unfoldable pub acquire_repository_landing_lease : Lane → LandingLease → Result LaneCode Lane
  acquire_repository_landing_lease l lease = do
    require_lane digest l
    reject (is_some l.body.active_lease || not (is_idle l.body.state))
        repository_landing_lease_active
    reject
        (not (is_printed lease.attempt_id)
          || not (is_printed lease.landing_lease_id)
          || not (is_printed lease.owner_identity)
          || not (is_some (date_parse lease.acquired_at)))
        repository_landing_lease_invalid
    ok (
        seal_lane digest (record l.body {
          state = landing_active;
          active_lease = some lease;
          attempt_ids = l.body.attempt_ids ++ lease.attempt_id ∷ [];
        }))

  -- releaseRepositoryLandingLease
  unfoldable pub release_repository_landing_lease : Lane → Release → Result LaneCode Lane
  release_repository_landing_lease l release = do
    require_lane digest l
    reject (not (holds l.body.active_lease release.attempt_id release.landing_lease_id))
        repository_landing_lease_mismatch
    reject
        (not (is_hash (some release.landing_receipt_digest))
          || not (is_some (date_parse release.released_at)))
        repository_landing_release_receipt_required
    ok (
        seal_lane digest (record l.body {
          state = landing_idle;
          active_lease = none;
          last_release = some release;
        }))

  acquired-body :
      (l m : Lane) (lease : LandingLease)
      → acquire_repository_landing_lease l lease ≡ ok m
      → m
        ≡ seal_lane digest (record l.body {
          state = landing_active;
          active_lease = some lease;
          attempt_ids = l.body.attempt_ids ++ lease.attempt_id ∷ [];
        })
  unfolding acquire_repository_landing_lease
  acquired-body l m lease h = ground arith

  acquired-schema :
      (l m : Lane) (lease : LandingLease)
      → acquire_repository_landing_lease l lease ≡ ok m
      → (l.body.schema == "issue-orchestration.repository-landing-lane.v1") ≡ true
  unfolding acquire_repository_landing_lease require_lane
  acquired-schema l m lease h = ground arith

  -- What a sealed lane answers to its holder and to others.
  module _ (digest-is_hash : (b : LaneBody) → is_hash (some (digest b)) ≡ true) where
    sealed-valid :
        (b : LaneBody)
        → (b.schema == "issue-orchestration.repository-landing-lane.v1") ≡ true
        → require_lane digest (seal_lane digest b) ≡ ok tt
    unfolding require_lane seal_lane
    sealed-valid b s = ground (arith, s, digest-is_hash b, eq_refl (digest b))

    refused :
        (b : LaneBody) (other : LandingLease)
        → (b.schema == "issue-orchestration.repository-landing-lane.v1") ≡ true
        → is_some b.active_lease ≡ true
        → acquire_repository_landing_lease (seal_lane digest b) other
          ≡ err repository_landing_lease_active
    unfolding acquire_repository_landing_lease
    refused b other s held = rw (sealed-valid b s) (unfold seal_lane in simp held)

    released :
        (b : LaneBody) (release : Release)
        → (b.schema == "issue-orchestration.repository-landing-lane.v1") ≡ true
        → holds b.active_lease release.attempt_id release.landing_lease_id ≡ true
        → is_hash (some release.landing_receipt_digest) ≡ true
        → is_some (date_parse release.released_at) ≡ true
        → release_repository_landing_lease (seal_lane digest b) release
          ≡ ok (
              seal_lane digest (record b {
                state = landing_idle;
                active_lease = none;
                last_release = some release;
              }))
    unfolding release_repository_landing_lease
    released b release s held receipt date =
        rw (sealed-valid b s) (unfold seal_lane in simp (held, receipt, date))

    -- Where digests are well-formed hashes: once a lease is acquired, every other acquisition is refused because a lease is active, and a
    -- release that names its attempt and its lease, with the digest of a receipt and a date, gives
    -- the lane back as it was, idle, with the attempt and the release noted.
    pub acquired_until_released :
        (l m : Lane) (lease other : LandingLease) (release : Release)
        → acquire_repository_landing_lease l lease ≡ ok m
        → release.attempt_id ≡ lease.attempt_id
        → release.landing_lease_id ≡ lease.landing_lease_id
        → is_hash (some release.landing_receipt_digest) ≡ true
        → is_some (date_parse release.released_at) ≡ true
        → (acquire_repository_landing_lease m other ≡ err repository_landing_lease_active)
          × (release_repository_landing_lease m release
              ≡ ok (
                  seal_lane digest (record l.body {
                    state = landing_idle;
                    active_lease = none;
                    attempt_ids = l.body.attempt_ids ++ lease.attempt_id ∷ [];
                    last_release = some release;
                  })))
    acquired_until_released l m lease other release h a i receipt date =
        let b : LaneBody = record l.body {
          state = landing_active;
          active_lease = some lease;
          attempt_ids = l.body.attempt_ids ++ lease.attempt_id ∷ [];
        } in
        let s = acquired-schema l m lease h in
        let held : holds (some lease) release.attempt_id release.landing_lease_id ≡ true =
          rw a (rw i (ground (arith, eq_refl lease.attempt_id, eq_refl lease.landing_lease_id))) in
        let e = acquired-body l m lease h in
        (
          ap (λ x. acquire_repository_landing_lease x other) e ∙ refused b other s refl,
          ap (λ x. release_repository_landing_lease x release) e
              ∙ released b release s held receipt date,
        )
