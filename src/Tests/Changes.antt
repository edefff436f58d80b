-- ===== src/Tests/Changes.antt =====
-- Changes: the theorems on src/skcoord/itil.py's `_fold_change` at concrete logs.
use skcoord.Prelude.{
  String, true, ◌==◌, ◌≡◌, ◌≢◌, refl, none, some, List, [], ◌∷◌, ◌++◌, arith, if◌then◌else◌,
}
use skcoord.Itil.Event.{Event, bare}
use skcoord.Itil.Cab.{
  IsoTime, invalid, aware, Vote, Decision, legacy_cab_provenance_cutoff, is_human_approval,
  is_legacy_unprovenanced_approval,
}
use skcoord.Itil.Change.Model.{Status, reviewing, approved, Core}
use skcoord.Itil.Change.Gate.{auto_normal, human_approved}
use skcoord.Itil.Change.Fold.{kind_of, State, gate, step, start, replay}
use skcoord.Itil.Change.Settle.{settle}
use skcoord.Itil.Change.Hold.{is_held}
use skcoord.Itil.Change.Approval.{
  is_turned_down, approval_takes_vote, no_self_approval, rejection_blocks,
}
use skcoord.Itil.Change.Agreement.{settle-eq-gate, settle-ne-gate}
use skcoord.Itil.Change.Windows.{Bypass, status_bypasses_window}

abbrev pub iso : String → IsoTime
iso s =
    if s == legacy_cab_provenance_cutoff
    then aware 20
    else if s == "2026-01-01T00:00:00+00:00"
    then aware 10
    else invalid

abbrev pub normal_core : Core
normal_core = record {
  id = some "chg-1";
  title = "rotate keys";
  change_type = some "normal";
  risk = some "low";
  rollback_plan = "restore the old keys";
  test_plan = "";
  managed_by = "lumina";
  created_by = "lumina";
  implementer = none;
  cab_required = none;
  created_at = "2026-09-01T00:00:00+00:00";
  related_problem_id = none;
  tags = [];
}

abbrev pub standard_core : Core
standard_core = record normal_core { change_type = some "standard" }

abbrev pub vote_of : String → String → Decision → Vote
vote_of agent role decision = record {
  change_id = "chg-1";
  agent = agent;
  subject_role = role;
  subject_fingerprint = "";
  authorization_id = "";
  decision = decision;
  conditions = "";
  decided_at = "2026-09-01T00:00:00+00:00";
}

abbrev status_event : String → String → Event
status_event to note = record (bare "status") {
  to = some to;
  note = note;
  writer = "opus";
  node = "laptop";
}

abbrev pr_event : String → Event
pr_event writer = record (bare "pr_link") { url = some "pr/1"; writer = writer }

abbrev pub agent_votes : List Vote
agent_votes = vote_of "opus" "worker" Decision.approved ∷ []

abbrev drafter_votes : List Vote
drafter_votes = vote_of "chef" "owner" Decision.approved ∷ []

abbrev split_votes : List Vote
split_votes = vote_of "human" "" Decision.approved ∷ vote_of "opus" "" Decision.rejected ∷ []

abbrev attempt : List Event
attempt = status_event "approved" "please" ∷ status_event "implementing" "" ∷ []

approval_takes_vote_example :
    is_held
      (settle iso "now" normal_core agent_votes (replay iso normal_core agent_votes attempt)).status
    ≡ true
unfolding human_approved is_human_approval is_legacy_unprovenanced_approval
approval_takes_vote_example =
    approval_takes_vote iso "now" normal_core agent_votes attempt (refl, refl) refl
      (refl, (refl, tt))

no_self_approval_example :
    is_held
      (settle iso "now" normal_core drafter_votes (
        replay iso normal_core drafter_votes
          ((bare "created" ∷ []) ++ pr_event "chef" ∷ attempt))).status
    ≡ true
unfolding human_approved is_human_approval is_legacy_unprovenanced_approval kind_of
no_self_approval_example =
    no_self_approval iso "now" normal_core drafter_votes (bare "created" ∷ []) (pr_event "chef")
      attempt (refl, refl) (refl, tt) refl refl
      ((refl, λ p. absurd (ground arith)), ((refl, λ p. absurd (ground arith)), tt))

rejection_blocks_example :
    is_turned_down
      (settle iso "now" normal_core split_votes (replay iso normal_core split_votes attempt)).status
    ≡ true
rejection_blocks_example =
    rejection_blocks iso normal_core split_votes refl refl "now" attempt (refl, (refl, tt))

abbrev at : Core → Status → State
at core status = record (start core) { status = status }

settle-eq-gate_example :
    (settle iso "now" normal_core drafter_votes (at normal_core reviewing)).status
    ≡ gate iso normal_core drafter_votes (at normal_core reviewing)
unfolding start auto_normal
settle-eq-gate_example =
    settle-eq-gate iso "now" normal_core drafter_votes (at normal_core reviewing) (λ p. refl)

settle-ne-gate_example :
    (gate iso standard_core [] (at standard_core reviewing) ≡ approved)
    × ((settle iso "now" standard_core [] (at standard_core reviewing)).status ≢ approved)
unfolding start human_approved
settle-ne-gate_example =
    settle-ne-gate iso "now" standard_core [] (at standard_core reviewing) refl refl refl

status_bypasses_window_example :
    Bypass
      (at normal_core approved)
      (status_event "scheduled" "")
      (step iso normal_core [] (at normal_core approved) (status_event "scheduled" ""))
unfolding kind_of
status_bypasses_window_example =
    status_bypasses_window iso normal_core [] (at normal_core approved)
      (status_event "scheduled" "") refl
