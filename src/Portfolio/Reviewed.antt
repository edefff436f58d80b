-- ===== src/Portfolio/Reviewed.antt =====
-- src/skcoord/portfolio.py: when `evaluate_review_completion` lets an artifact complete.
use skcoord.Prelude.{
  ℕ, ◌≤◌, ◌<◌, String, ◌≡◌, refl, Bool, true, false, not, ◌||◌, Option, some, List, [], ◌∷◌, arith,
  eq_iff, truthy, contains, sort_set, ordered_text, ok,
}
use skcoord.Portfolio.IsoFormat.{Moment}
use skcoord.Portfolio.Contracts.{is_nil}
use skcoord.Portfolio.Quality.{raised, is_aware}
use skcoord.Portfolio.Passed.{raised_none, sort_set_none, Passed}
use skcoord.Portfolio.Facts.{not_ended}
use skcoord.Portfolio.Review.{
  ReviewAssignmentV1, ReviewDecisionV1, Verdict, is_pass, assignment_checks, time_check,
  decision_checks,
}

-- A principal that is neither an author of the artifact nor ruled out as its reviewer.
abbrev pub IsIndependent : ReviewAssignmentV1 → String → Type 0
IsIndependent a principal =
    (contains principal a.author_principal_ids ≡ false)
    × (contains principal a.disallowed_reviewer_principal_ids ≡ false)

-- The assignment is for this very artifact, was made by an independent principal and holds now; a
-- decision of an independent reviewer of the capability, made since and still holding, passes that
-- artifact with evidence.
pub record IsReviewed (a : ReviewAssignmentV1) (decision : Option ReviewDecisionV1)
    (revision hash : String) (now : ℕ) : Type 0 where
  pub right_revision : a.artifact_revision ≡ revision
  pub right_hash : a.artifact_hash ≡ hash
  pub created : ℕ
  pub created_then : a.created_at ≡ Moment.aware created
  pub begun_by : created ≤ now
  pub ends : ℕ
  pub ends_then : a.expires_at ≡ Moment.aware ends
  pub not_over : now < ends
  pub assigned_independently : IsIndependent a a.assigned_by_principal_id
  pub verdict_on : ReviewDecisionV1
  pub decided : decision ≡ some verdict_on
  pub same_assignment : verdict_on.assignment_id ≡ a.assignment_id
  pub same_artifact : verdict_on.artifact_hash ≡ hash
  pub capable : verdict_on.reviewer_capability ≡ a.required_reviewer_capability
  pub passed : verdict_on.verdict ≡ Verdict.pass
  pub at : ℕ
  pub decided_then : verdict_on.decided_at ≡ Moment.aware at
  pub since : created ≤ at
  pub decided_by : at ≤ now
  pub until : ℕ
  pub until_then : verdict_on.expires_at ≡ Moment.aware until
  pub still_holds : now < until
  pub reviewed_independently : IsIndependent a verdict_on.reviewer_principal_id
  pub has_evidence : is_nil verdict_on.evidence_refs ≡ false
  pub has_findings : truthy verdict_on.findings_hash ≡ true

-- No reason is left where every test passed, and only there.
pub allowed-Passed :
    (checks : List (Bool × String)) → is_nil (sort_set (raised checks)) ≡ true → Passed checks
allowed-Passed checks h =
    raised_none checks (sort_set_none (raised checks) (empty (sort_set (raised checks)) h))
  where
    empty : (l : List String) → is_nil l ≡ true → l ≡ []
    empty [] g = refl
    empty (x ∷ l) g = cc

-- What the times are where the check of the times has nothing against them.
record IsTimely (now : ℕ) (created decided expires : Moment) : Type 0 where
  begun_at : ℕ
  begun_then : created ≡ Moment.aware begun_at
  at : ℕ
  decided_then : decided ≡ Moment.aware at
  since : begun_at ≤ at
  decided_by : at ≤ now
  until : ℕ
  until_then : expires ≡ Moment.aware until
  still_holds : now < until

timely :
    (now : ℕ) (created decided expires : Moment) {timing : Bool × String}
    → time_check now created decided expires ≡ ok timing
    → timing.0 ≡ false
    → is_aware created ≡ true
    → IsTimely now created decided expires
unfolding time_check
timely now (Moment.aware c) (Moment.aware d) (Moment.aware e) h g k = record {
  begun_at = c;
  begun_then = refl;
  at = d;
  decided_then = refl;
  since = ground arith;
  decided_by = ground arith;
  until = e;
  until_then = refl;
  still_holds = ground arith;
}
timely now (Moment.naive c) d e h g k = cc
timely now (Moment.aware c) (Moment.naive d) e h g k = cc
timely now (Moment.aware c) (Moment.aware d) (Moment.naive e) h g k = cc

outside :
    (principal : String) (authors barred : List String)
    → (contains principal authors || contains principal barred) ≡ false
    → (contains principal authors ≡ false) × (contains principal barred ≡ false)
outside principal authors barred h = (ground arith, ground arith)

verdict_pass : (v : Verdict) → not (is_pass v) ≡ false → v ≡ Verdict.pass
verdict_pass Verdict.pass h = refl
verdict_pass Verdict.fail h = cc

module _ (a : ReviewAssignmentV1) (revision hash : String) (now : ℕ) (d : ReviewDecisionV1)
    (timing : Bool × String) where
  pub reviewed :
      time_check now a.created_at d.decided_at d.expires_at ≡ ok timing
      → Passed (assignment_checks a revision hash now)
      → Passed (decision_checks a revision hash now d timing)
      → IsReviewed a (some d) revision hash now
  unfolding assignment_checks decision_checks
  reviewed timed (a1, (a2, (a3, (a4, _)))) (d1, (d2, (d3, (d4, (d5, (d6, (d7, _))))))) =
      let times = timely now a.created_at d.decided_at d.expires_at timed d5 (ground arith) in
      let (ends, ends_then, not_over) = not_ended a.expires_at now (ground arith) (ground arith) in
      record {
        right_revision = (eq_iff a.artifact_revision revision).0 (ground arith);
        right_hash = (eq_iff a.artifact_hash hash).0 (ground arith);
        created = times.begun_at;
        created_then = times.begun_then;
        begun_by = omega (arith, times.since, times.decided_by);
        ends = ends;
        ends_then = ends_then;
        not_over = not_over;
        assigned_independently =
            outside a.assigned_by_principal_id a.author_principal_ids
              a.disallowed_reviewer_principal_ids a4;
        verdict_on = d;
        decided = refl;
        same_assignment = (eq_iff d.assignment_id a.assignment_id).0 (ground arith);
        same_artifact = (eq_iff d.artifact_hash hash).0 (ground arith);
        capable = (eq_iff d.reviewer_capability a.required_reviewer_capability).0 (ground arith);
        passed = verdict_pass d.verdict d4;
        at = times.at;
        decided_then = times.decided_then;
        since = times.since;
        decided_by = times.decided_by;
        until = times.until;
        until_then = times.until_then;
        still_holds = times.still_holds;
        reviewed_independently =
            outside d.reviewer_principal_id a.author_principal_ids
              a.disallowed_reviewer_principal_ids d6;
        has_evidence = ground arith;
        has_findings = ground arith;
      }
