-- ===== src/Portfolio/Review.antt =====
-- src/skcoord/portfolio.py: `evaluate_review_completion`, with the records it reads.
use skcoord.Prelude.{
  ℕ, String, Bool, true, false, not, ◌&&◌, ◌||◌, Option, none, some, List, [], ◌∷◌, ◌++◌, ◌==◌, ltb,
  contains, truthy, sort_set, ordered_text, Result, Error, err, ok, ◌>>=◌,
}
use skcoord.Portfolio.IsoFormat.{Moment}
use skcoord.Portfolio.Contracts.{is_nil}
use skcoord.Portfolio.Quality.{raised, is_aware, is_after, is_until}

pub record ReviewAssignmentV1 : Type 0 where
  pub assignment_id : String
  pub artifact_type : String
  pub artifact_id : String
  pub artifact_revision : String
  pub artifact_hash : String
  pub author_principal_ids : List String
  pub disallowed_reviewer_principal_ids : List String
  pub required_reviewer_capability : String
  pub review_policy_id : String
  pub review_policy_version : String
  pub assigned_by_principal_id : String
  pub created_at : Moment
  pub expires_at : Moment

pub data Verdict : Type 0 where
  pass fail : Verdict

abbrev pub is_pass : Verdict → Bool
is_pass Verdict.pass = true
is_pass Verdict.fail = false

pub record ReviewDecisionV1 : Type 0 where
  pub assignment_id : String
  pub artifact_hash : String
  pub reviewer_principal_id : String
  pub reviewer_capability : String
  pub verdict : Verdict
  pub findings_hash : String
  pub evidence_refs : List String
  pub decided_at : Moment
  pub expires_at : Moment

pub record CompletionDecision : Type 0 where
  pub allowed : Bool
  pub reason_codes : List String

-- m < n, which raises where only one of the two has a time zone
abbrev pub earlier : Moment → Moment → Result Bool
earlier (Moment.aware s) (Moment.aware t) = ok (ltb s t)
earlier (Moment.naive s) (Moment.naive t) = ok (ltb s t)
earlier (Moment.aware s) (Moment.naive t) =
    err (Error.type_error "can't compare offset-naive and offset-aware datetimes")
earlier (Moment.naive s) (Moment.aware t) =
    err (Error.type_error "can't compare offset-naive and offset-aware datetimes")

-- The times of the decision, by the assignment's own time, with which the first comparison is.
unfoldable pub time_check : ℕ → Moment → Moment → Moment → Result (Bool × String)
time_check as_of created decided expires = elim (is_aware decided && is_aware expires) [
  | false ↦ ok (true, "review_timestamp_invalid")
  | true ↦ do
    early ← earlier decided created
    ok (early || is_after decided as_of || is_until expires as_of, "review_expired")
]

module _ (assignment : ReviewAssignmentV1) (artifact_revision artifact_hash : String)
    (as_of : ℕ) where
  abbrev pub denied : String → Bool
  denied principal =
      contains principal assignment.author_principal_ids
      || contains principal assignment.disallowed_reviewer_principal_ids

  unfoldable pub assignment_checks : List (Bool × String)
  assignment_checks =
      let timed = is_aware assignment.created_at && is_aware assignment.expires_at in
      (
        not (assignment.artifact_revision == artifact_revision)
            || not (assignment.artifact_hash == artifact_hash),
        "assignment_artifact_mismatch",
      )
      ∷ (not timed, "assignment_timestamp_invalid")
      ∷ (
        timed && (is_after assignment.created_at as_of || is_until assignment.expires_at as_of),
        "assignment_expired",
      )
      ∷ (denied assignment.assigned_by_principal_id, "assignment_principal_conflict")
      ∷ []

  unfoldable pub decision_checks : ReviewDecisionV1 → (Bool × String) → List (Bool × String)
  decision_checks decision timing =
      (not (decision.assignment_id == assignment.assignment_id), "review_assignment_mismatch")
      ∷ (not (decision.artifact_hash == artifact_hash), "review_artifact_mismatch")
      ∷ (
        not (decision.reviewer_capability == assignment.required_reviewer_capability),
        "reviewer_capability_mismatch",
      )
      ∷ (not (is_pass decision.verdict), "review_failed")
      ∷ timing
      ∷ (denied decision.reviewer_principal_id, "reviewer_principal_conflict")
      ∷ (
        is_nil decision.evidence_refs || not (truthy decision.findings_hash),
        "review_evidence_missing",
      )
      ∷ []

  -- CompletionDecision(allowed=not reasons, reason_codes=tuple(sorted(reasons)))
  unfoldable pub completion : List (Bool × String) → CompletionDecision
  completion checks =
      let reasons = sort_set (raised checks) in
      record { allowed = is_nil reasons; reason_codes = reasons }

  unfoldable pub review_completion : Option ReviewDecisionV1 → Result CompletionDecision
  review_completion none = ok (completion (assignment_checks ++ (true, "review_missing") ∷ []))
  review_completion (some decision) = do
    timing ← time_check as_of assignment.created_at decision.decided_at decision.expires_at
    ok (completion (assignment_checks ++ decision_checks decision timing))

unfoldable pub evaluate_review_completion :
    ReviewAssignmentV1
    → Option ReviewDecisionV1
    → String
    → String
    → Moment
    → Result CompletionDecision
evaluate_review_completion assignment decision artifact_revision artifact_hash (Moment.naive t) =
    err (Error.value_error "as_of must be timezone-aware")
evaluate_review_completion assignment decision artifact_revision artifact_hash (Moment.aware t) =
    review_completion assignment artifact_revision artifact_hash t decision
