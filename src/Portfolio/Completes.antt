-- ===== src/Portfolio/Completes.antt =====
-- src/skcoord/portfolio.py: `evaluate_review_completion` completes exactly what is reviewed.
use skcoord.Prelude.{
  ℕ, String, ◌≡◌, refl, ap, ◌∙◌, ◌↔◌, Bool, true, false, not, Option, none, some, List, [], ◌∷◌,
  ◌++◌, arith, eq_iff, sort_set, sort_by, once_each, ordered_text, Result, Error, err, ok,
  >>=-eq-ok,
}
use skcoord.Portfolio.IsoFormat.{Moment}
use skcoord.Portfolio.Contracts.{is_nil}
use skcoord.Portfolio.Quality.{raised}
use skcoord.Portfolio.Passed.{none_raised, Passed, Passed-append}
use skcoord.Portfolio.Review.{
  ReviewAssignmentV1, ReviewDecisionV1, CompletionDecision, is_pass, assignment_checks, time_check,
  decision_checks, completion, review_completion, evaluate_review_completion,
}
use skcoord.Portfolio.Reviewed.{IsReviewed, allowed-Passed, reviewed}

all_pass-is_nil :
    (checks : List (Bool × String)) → Passed checks → is_nil (sort_set (raised checks)) ≡ true
unfolding sort_by once_each
all_pass-is_nil checks p = ap (λ l. is_nil (sort_set l)) (none_raised checks p)

append-Passed : (l k : List (Bool × String)) → Passed l → Passed k → Passed (l ++ k)
append-Passed [] k p q = q
append-Passed (c ∷ l) k (h, p) q = (h, append-Passed l k p q)

module _ (a : ReviewAssignmentV1) (decision : Option ReviewDecisionV1) (revision hash : String)
    (now : ℕ) (r : IsReviewed a decision revision hash now) where
  -- No test of the assignment, or of its decision, is true.
  assignment_passes : Passed (assignment_checks a revision hash now)
  unfolding assignment_checks
  assignment_passes =
      rw (r.created_then, r.ends_then)
        (
          ground (
            arith,
            r.right_revision,
            r.right_hash,
            eq_iff a.artifact_revision revision,
            eq_iff a.artifact_hash hash,
          ),
          (
            refl,
            (
              ground (arith, r.begun_by, r.not_over),
              (ground (arith, r.assigned_independently), tt),
            ),
          ),
        )

  times_pass :
      (timing : Bool × String) × (time_check now a.created_at r.verdict_on.decided_at
          r.verdict_on.expires_at
        ≡ ok timing)
      × (timing.0 ≡ false)
  unfolding time_check
  times_pass =
      rw (r.created_then, r.decided_then, r.until_then)
        (_, refl, ground (arith, r.since, r.decided_by, r.still_holds))

  decision_passes :
      (timing : Bool × String)
      → timing.0 ≡ false
      → Passed (decision_checks a revision hash now r.verdict_on timing)
  unfolding decision_checks
  decision_passes timing h = (
    ground (arith, r.same_assignment, eq_iff r.verdict_on.assignment_id a.assignment_id),
    (
      ground (arith, r.same_artifact, eq_iff r.verdict_on.artifact_hash hash),
      (
        ground (
          arith,
          r.capable,
          eq_iff r.verdict_on.reviewer_capability a.required_reviewer_capability,
        ),
        (
          ap (λ v. not (is_pass v)) r.passed,
          (
            h,
            (
              ground (arith, r.reviewed_independently),
              (ground (arith, r.has_evidence, r.has_findings), tt),
            ),
          ),
        ),
      ),
    ),
  )

  completes :
      (c : CompletionDecision) × (review_completion a revision hash now decision ≡ ok c)
      × (c.allowed ≡ true)
  unfolding review_completion completion
  completes =
      let (timing, timed, in_time) = times_pass in
      rw (r.decided, timed)
        (
          completion a revision hash now (
              assignment_checks a revision hash now
              ++ decision_checks a revision hash now r.verdict_on timing),
          refl,
          all_pass-is_nil _ (append-Passed _ _ assignment_passes (decision_passes timing in_time)),
        )

abbrev allowed_in : Result CompletionDecision → Bool
allowed_in (err e) = false
allowed_in (ok c) = c.allowed

module _ (a : ReviewAssignmentV1) (revision hash : String) (now : ℕ) where
  allowed-IsReviewed :
      (decision : Option ReviewDecisionV1) (c : CompletionDecision)
      → review_completion a revision hash now decision ≡ ok c
      → c.allowed ≡ true
      → IsReviewed a decision revision hash now
  unfolding review_completion completion
  allowed-IsReviewed none c h g =
      let (on_assignment, on_decision) =
        Passed-append (assignment_checks a revision hash now) ((true, "review_missing") ∷ [])
          (allowed-Passed _ (ap allowed_in h ∙ g)) in
      cc (on_decision.0)
  allowed-IsReviewed (some d) c h g =
      let (timing, timed, rest) =
        >>=-eq-ok (time_check now a.created_at d.decided_at d.expires_at)
          (λ timing. ok (
            completion a revision hash now (
              assignment_checks a revision hash now
              ++ decision_checks a revision hash now d timing)))
          h in
      let (on_assignment, on_decision) =
        Passed-append (assignment_checks a revision hash now)
          (decision_checks a revision hash now d timing)
          (allowed-Passed _ (ap allowed_in rest ∙ g)) in
      reviewed a revision hash now d timing timed on_assignment on_decision

-- A review lets the artifact complete exactly where it is a passing verdict on this very artifact,
-- by a reviewer who did not write it and is not ruled out, under an assignment made by such a principal,
-- all at times that hold now.
pub evaluate_review_completion-allowed :
    (a : ReviewAssignmentV1) (decision : Option ReviewDecisionV1) (revision hash : String) (now : ℕ)
    → ((c : CompletionDecision) × (evaluate_review_completion a decision revision hash
            (Moment.aware now)
          ≡ ok c)
        × (c.allowed ≡ true))
      ↔ IsReviewed a decision revision hash now
unfolding evaluate_review_completion
evaluate_review_completion-allowed a decision revision hash now = (
  λ run. allowed-IsReviewed a revision hash now decision run.0 run.1 run.2,
  λ r. completes a decision revision hash now r,
)

-- An assignment whose own time has no time zone, with a decision whose times have one: the call raises,
-- and does not answer that the assignment's times are invalid.
pub evaluate_review_completion-naive :
    (a : ReviewAssignmentV1) (d : ReviewDecisionV1) (revision hash : String)
    (now created at until : ℕ)
    → a.created_at ≡ Moment.naive created
    → d.decided_at ≡ Moment.aware at
    → d.expires_at ≡ Moment.aware until
    → evaluate_review_completion a (some d) revision hash (Moment.aware now)
      ≡ err (Error.type_error "can't compare offset-naive and offset-aware datetimes")
unfolding evaluate_review_completion review_completion time_check
evaluate_review_completion-naive a d revision hash now created at until h g k = rw (h, g, k) refl
