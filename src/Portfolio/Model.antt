-- ===== src/Portfolio/Model.antt =====
-- src/skcoord/portfolio_contracts.py: the records of a plan's input and output. Each `Literal` is a data
-- type with the text it stands for; hashes are texts, whose form Contracts checks where it can fail.
use skcoord.Prelude.{ℕ, String, Bool, true, false, Option, List, ℤ}
use skcoord.Portfolio.IsoFormat.{Moment}

pub data TruthState : Type 0 where
  healthy degraded unsafe unknown unavailable unauthorized : TruthState

abbrev pub truth_text : TruthState → String
truth_text TruthState.healthy = "healthy"
truth_text TruthState.degraded = "degraded"
truth_text TruthState.unsafe = "unsafe"
truth_text TruthState.unknown = "unknown"
truth_text TruthState.unavailable = "unavailable"
truth_text TruthState.unauthorized = "unauthorized"

abbrev pub is_healthy : TruthState → Bool
is_healthy TruthState.healthy = true
is_healthy _ = false

pub data Priority : Type 0 where
  critical high medium low : Priority

abbrev pub same_priority : Priority → Priority → Bool
same_priority Priority.critical Priority.critical = true
same_priority Priority.high Priority.high = true
same_priority Priority.medium Priority.medium = true
same_priority Priority.low Priority.low = true
same_priority _ _ = false

pub data ClassOfService : Type 0 where
  expedite fixed_date standard intangible : ClassOfService

abbrev pub same_service : ClassOfService → ClassOfService → Bool
same_service ClassOfService.expedite ClassOfService.expedite = true
same_service ClassOfService.fixed_date ClassOfService.fixed_date = true
same_service ClassOfService.standard ClassOfService.standard = true
same_service ClassOfService.intangible ClassOfService.intangible = true
same_service _ _ = false

pub data ProfileKind : Type 0 where
  human service : ProfileKind

abbrev pub is_service : ProfileKind → Bool
is_service ProfileKind.human = false
is_service ProfileKind.service = true

pub data Enrollment : Type 0 where
  unenrolled enrolled suspended : Enrollment

abbrev pub enrollment_text : Enrollment → String
enrollment_text Enrollment.unenrolled = "unenrolled"
enrollment_text Enrollment.enrolled = "enrolled"
enrollment_text Enrollment.suspended = "suspended"

pub data LeaseState : Type 0 where
  clear active unknown unavailable unauthorized : LeaseState

abbrev pub lease_text : LeaseState → String
lease_text LeaseState.clear = "clear"
lease_text LeaseState.active = "active"
lease_text LeaseState.unknown = "unknown"
lease_text LeaseState.unavailable = "unavailable"
lease_text LeaseState.unauthorized = "unauthorized"

pub data GateState : Type 0 where
  not_required pending approved rejected unknown : GateState

abbrev pub gate_text : GateState → String
gate_text GateState.not_required = "not-required"
gate_text GateState.pending = "pending"
gate_text GateState.approved = "approved"
gate_text GateState.rejected = "rejected"
gate_text GateState.unknown = "unknown"

pub record PortfolioPolicy : Type 0 where
  pub policy_id : String
  pub policy_version : String
  pub policy_hash : String
  pub enrollment_policy_version : String
  pub snapshot_max_age_seconds : ℕ
  pub eligible_states : List String
  pub class_order : List ClassOfService
  pub priority_order : List Priority
  pub excluded_labels : List String

pub record PlanDataQuality : Type 0 where
  pub source_owner : String
  pub snapshot_id : String
  pub snapshot_hash : String
  pub board_revision : String
  pub projection_revision : String
  pub parity_state : TruthState
  pub read_state : TruthState
  pub observed_at : Moment
  pub expires_at : Moment

pub record ServiceProfileV1 : Type 0 where
  pub profile_id : String
  pub profile_kind : ProfileKind
  pub profile_state : TruthState
  pub selectable : Bool
  pub fallback_eligible : Bool
  pub memory_principal_id : Option String
  pub default_tools : List String
  pub capability_policy_ref : Option String
  pub profile_revision : String
  pub profile_hash : String

pub record AgentCapacity : Type 0 where
  pub principal_id : String
  pub profile : ServiceProfileV1
  pub allowed_task_classes : List String
  pub allowed_repo_ids : List String
  pub wip_limit : ℕ
  pub active_wip : ℕ
  pub active_card_ids : List String
  pub lease_state_fresh : Bool
  pub capability_state : TruthState
  pub capacity_revision : String
  pub observed_at : Moment
  pub expires_at : Moment

pub record WorkCandidate : Type 0 where
  pub card_id : String
  pub title : String
  pub kind : String
  pub state : String
  pub card_revision : String
  pub priority : Priority
  pub class_of_service : ClassOfService
  pub human_order : Option ℕ
  pub enrollment_state : Enrollment
  pub enrollment_policy_version : Option String
  pub tags : List String
  pub dependency_ids : List String
  pub dependency_states : List (String × String)
  pub dependency_revisions : List (String × String)
  pub acceptance_criteria : List String
  pub repo_ids : List String
  pub size_values : List String
  pub execution_ready_attestation : Option String
  pub owner_principal_id : Option String
  pub lease_state : LeaseState
  pub lease_generation : ℕ
  pub lease_expires_at : Option Moment
  pub human_gate_state : GateState
  pub approval_ref : Option String
  pub approved_card_revision : Option String
  pub approved_card_hash : Option String
  pub target_executor_principal_id : String
  pub downstream_unlock_count : ℕ
  pub ready_at : Option Moment
  pub fixed_date_at : Option Moment
  pub expedite_approval_ref : Option String
  pub expedite_approval_expires_at : Option Moment

abbrev pub RankingKey : Type 0
RankingKey = ℕ × (ℕ × (ℤ × (String × (String × (ℕ × String)))))

pub record EligibilityDecision : Type 0 where
  pub card_id : String
  pub eligible : Bool
  pub reason_codes : List String
  pub normalized_class : ClassOfService
  pub ranking_key : Option RankingKey

pub record RankedCandidate : Type 0 where
  pub card_id : String
  pub rank : ℕ
  pub repo_id : String
  pub executor_principal_id : String
  pub class_of_service : ClassOfService
  pub ranking_key : RankingKey

pub record CandidateExclusion : Type 0 where
  pub card_id : String
  pub reason_codes : List String

pub record CanonicalWarning : Type 0 where
  pub code : String
  pub card_id : Option String

pub record CanonicalAbstention : Type 0 where
  pub reason_codes : List String

pub record CanonicalSourceRef : Type 0 where
  pub source_id : String
  pub source_revision : String
  pub source_hash : String

pub data PlanStatus : Type 0 where
  proposed abstained : PlanStatus

pub record PortfolioPlanContentV1 : Type 0 where
  pub status : PlanStatus
  pub objective_hash : String
  pub snapshot_id : String
  pub snapshot_hash : String
  pub snapshot_expires_at : Moment
  pub policy_id : String
  pub policy_version : String
  pub policy_hash : String
  pub recommendations : List RankedCandidate
  pub exclusions : List CandidateExclusion
  pub warnings : List CanonicalWarning
  pub abstention : Option CanonicalAbstention
  pub source_refs : List CanonicalSourceRef
  pub claims : List String
  pub mutations : List String
