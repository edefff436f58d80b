-- ===== src/Tests/Desks.antt =====
-- The ITIL manager: the theorems on src/skcoord/itil.py's `submit_cab_vote` and `update_change` at
-- concrete calls.
use skcoord.Prelude.{String, ◌≡◌, ◌≢◌, refl, ◌⊎◌, some, List, [], ◌∷◌, ◌++◌}
use skcoord.Itil.Cab.{Vote, IsoTime, is_human_approval, is_legacy_unprovenanced_approval}
use skcoord.Itil.Change.Gate.{human_approved, auto_normal, cab_resolved_status}
use skcoord.Itil.Change.Model.{Core, parse_status, is_change_type, is_risk}
use skcoord.Itil.Change.Fold.{replay, step, start, apply, kind_of, accepted, target}
use skcoord.Itil.Change.Settle.{
  settle, settle_standard, settle_auto_normal, settle_cab, finish, fold_change,
}
use skcoord.Itil.Manager.Ballot.{
  Submission, submit_cab_vote, submitted_vote, parse_decision, vote_of, IsBound, submitted_approval,
}
use skcoord.Itil.Manager.Update.{Stamp, Request, update_change, update_known, with_status, effects}
use skcoord.Itil.Manager.Effects.{IsSilent, update_change-IsSilent}
use skcoord.Itil.Manager.Once.{update_change_once}
use skcoord.Tests.Changes.{iso, normal_core, agent_votes}

abbrev ballot : Submission
ballot = record {
  change_id = "chg-1";
  agent = "chef-bot";
  decision = "approved";
  conditions = "";
  subject = some "chef";
  subject_role = "owner";
  subject_fingerprint = "";
  authorization_id = "";
}

abbrev today : String
today = "2026-09-01T00:00:00+00:00"

submitted_approval_example :
    ((vote_of today ballot skcoord.Itil.Cab.Decision.approved).agent ≡ "human")
    ⊎ IsBound ballot (vote_of today ballot skcoord.Itil.Cab.Decision.approved)
unfolding submit_cab_vote submitted_vote parse_decision vote_of is_human_approval
submitted_approval_example =
    submitted_approval iso today ballot []
      {v = vote_of today ballot skcoord.Itil.Cab.Decision.approved} refl refl refl

abbrev vote_for : String → Vote
vote_for agent = record {
  change_id = "chg-1";
  agent = agent;
  subject_role = "";
  subject_fingerprint = "";
  authorization_id = "";
  decision = skcoord.Itil.Cab.Decision.approved;
  conditions = "";
  decided_at = today;
}

abbrev stamp : Stamp
stamp = record { ts = today; node = "laptop"; seq = 0 }

abbrev asks_for : String → Request
asks_for status = record {
  id = "chg-1";
  agent = "opus";
  new_status = some status;
  note = "";
  first = stamp;
  second = stamp;
  gtd = some "gtd-1";
}

update_change-IsSilent_example :
    IsSilent (update_change iso "now" (some normal_core) agent_votes (asks_for "approved") [])
unfolding human_approved is_human_approval is_legacy_unprovenanced_approval
update_change-IsSilent_example =
    update_change-IsSilent iso "now" normal_core agent_votes (asks_for "approved") [] (refl, refl)
      refl tt refl

-- A change with an implementer, which a human has approved.
abbrev staffed_core : Core
staffed_core = record normal_core { implementer = some "opus" }

abbrev human_votes : List Vote
human_votes = vote_for "human" ∷ []

emitted :
    (update_change iso "now" (some staffed_core) human_votes (asks_for "approved") []).tasks ≢ []
unfolding update_change update_known with_status effects fold_change settle settle_standard
    settle_auto_normal settle_cab finish replay step start apply kind_of accepted target
    parse_status cab_resolved_status auto_normal human_approved is_human_approval
    is_legacy_unprovenanced_approval is_change_type is_risk
emitted p = cc

update_change_once_example :
    (update_change iso "later" (some staffed_core) human_votes (asks_for "approved") (
      (update_change iso "now" (some staffed_core) human_votes (asks_for "approved") []).events
      ++ [])).tasks
    ≡ []
update_change_once_example =
    update_change_once iso staffed_core "now" human_votes (asks_for "approved") [] "later"
      human_votes (asks_for "approved") [] refl emitted
