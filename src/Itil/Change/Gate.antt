-- ===== src/Itil/Change/Gate.antt =====
-- src/skcoord/itil.py: `_cab_resolved_status`, the status that the votes and the tags of a change
-- give it while the loop of `_fold_change` runs.
use skcoord.Prelude.{
  String, Bool, false, not, ◌&&◌, Option, none, some, get_or, List, ◌==◌, contains, any_of, keep_if,
  is_blank, if◌then◌else◌,
}
use skcoord.Itil.Cab.{IsoTime, Vote, is_rejection, is_approval, is_human_approval}
use skcoord.Itil.Change.Model.{Status, approved, rejected, is_pending, Core}

-- core.get("change_type", "normal")
abbrev pub change_type_of : Core → String
change_type_of core = get_or core.change_type "normal"

-- The conditions of the auto-normal tier, behind `change_type == "normal"`.
unfoldable pub auto_normal : Core → List String → List Vote → Bool
auto_normal core tags votes =
    contains "auto-normal" tags
    && core.created_by == "operator"
    && not (get_or core.risk "medium" == "high")
    && not (is_blank core.rollback_plan)
    && not (any_of is_rejection votes)

-- v.agent == prepared_by
abbrev pub is_drafter : Option String → Vote → Bool
is_drafter none v = false
is_drafter (some drafter) v = v.agent == drafter

-- The approvals that count: those of the drafter are dropped.
abbrev pub approvals : Option String → List Vote → List Vote
approvals prepared_by votes = keep_if (λ v. is_approval v && not (is_drafter prepared_by v)) votes

module _ (iso : String → IsoTime) (core : Core) (votes : List Vote) where
  -- Whether some qualifying human approved.
  unfoldable pub human_approved : Option String → Bool
  human_approved prepared_by = any_of (is_human_approval iso) (approvals prepared_by votes)

  unfoldable pub cab_resolved_status : Status → List String → Option String → Status
  unfolding human_approved
  cab_resolved_status status tags prepared_by =
      if not (is_pending status)
      then status
      else if change_type_of core == "standard"
      then approved
      else if (change_type_of core == "normal" && auto_normal core tags votes)
      then approved
      else if any_of is_rejection votes
      then rejected
      else if human_approved prepared_by
      then approved
      else status
