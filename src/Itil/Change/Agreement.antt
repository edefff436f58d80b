-- ===== src/Itil/Change/Agreement.antt =====
-- src/skcoord/itil.py: `_cab_resolved_status` and the derivation behind the loop state the same
-- conditions twice. Where they agree, and where they do not.
use skcoord.Prelude.{◌||◌, String, ◌≡◌, ◌≢◌, Bool, true, false, ◌&&◌, List, arith, ◌==◌}
use skcoord.Itil.Cab.{IsoTime, Vote}
use skcoord.Itil.Change.Model.{reviewing, approved, Core}
use skcoord.Itil.Change.Gate.{change_type_of, auto_normal, human_approved, cab_resolved_status}
use skcoord.Itil.Change.Fold.{State, gate}
use skcoord.Itil.Change.Settle.{settle_standard, settle_auto_normal, settle_cab, settle}

-- The automatic approvals: of standard changes, and of the auto-normal tier.
abbrev pub is_automatic : Core → List String → List Vote → Bool
is_automatic core tags votes =
    change_type_of core == "standard"
    || (change_type_of core == "normal" && auto_normal core tags votes)

module _ (iso : String → IsoTime) (now : String) (core : Core) (votes : List Vote) (s : State) where
  -- The headline status is the one that the gate derives, unless the change is under review and one
  -- of the automatic approvals applies to it.
  pub settle-eq-gate :
      (s.status ≡ reviewing → is_automatic core s.tags votes ≡ false)
      → (settle iso now core votes s).status ≡ gate iso core votes s
  unfolding settle settle_standard settle_auto_normal settle_cab cab_resolved_status human_approved
  settle-eq-gate h = ground arith

  -- Under review, an automatic approval is missing from the headline: the gate reads approved, and
  -- the folded status is not approved unless a human vote makes it so.
  pub settle-ne-gate :
      s.status ≡ reviewing
      → is_automatic core s.tags votes ≡ true
      → human_approved iso core votes s.prepared_by ≡ false
      → (gate iso core votes s ≡ approved) × ((settle iso now core votes s).status ≢ approved)
  unfolding settle settle_standard settle_auto_normal settle_cab cab_resolved_status human_approved
  settle-ne-gate p automatic unvoted = (ground arith, ground arith)
