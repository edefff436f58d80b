-- ===== src/Tests/Repairs.antt =====
-- The repair: the theorems on src/skcoord/lifecycle.py at a board on which the files disagree.
use skcoord.Prelude.{
  String, ◌≡◌, refl, Bool, true, false, none, some, List, [], ◌∷◌, All, map, put, look_up, discard,
  sort_by, insert_by,
}
use skcoord.Card.Model.{doing, done, Card}
use skcoord.Coord.Model.{AgentFile, fresh_agent}
use skcoord.Tests.Boards.{some_card}
use skcoord.Lifecycle.Audit.{
  cards_by_id, agents_by_name, scoped_cards, current_issues, claim_issues, active_issues,
  completed_issues, agent_issues, add_held, holders_of, owner_issues, doing_by_owner, doing_issues,
  insert, ordered, is_clean, found_issues, audit_lifecycle,
}
use skcoord.Lifecycle.Owners.{OwnerRight}
use skcoord.Lifecycle.Repair.{
  first_of_each, doing_of, is_retained, retained_claims, kept_current, next_current, repair_agent,
  owned_current, hold, finish, repair_owned, repair_card, repair_agents, repair_cards, repaired,
}
use skcoord.Lifecycle.Retained.{IsRight, repaired-IsRight}
use skcoord.Lifecycle.Served.{repaired-OwnerRight}

abbrev owned_cards : List Card
owned_cards =
    record some_card { status = doing; owner = some "opus" }
    ∷ record some_card { id = "card-2"; status = done }
    ∷ []

-- Another agent claims the card, and reports the one in doing as completed.
abbrev stray_agents : List AgentFile
stray_agents =
    record (fresh_agent "jarvis") {
      claimed_tasks = "card-1" ∷ "card-2" ∷ [];
      completed_tasks = "card-1" ∷ [];
      current_task = some "card-1";
    }
    ∷ []

abbrev never_active : String → Bool
never_active agent = false

-- The audit of the repaired files finds nothing.
repaired-is_clean :
    is_clean (
      audit_lifecycle none owned_cards (
        map
          (λ e. e.1)
          (repaired never_active none
            (cards_by_id [] owned_cards)
            (agents_by_name [] stray_agents))))
    ≡ true
unfolding audit_lifecycle found_issues cards_by_id agents_by_name scoped_cards current_issues
    claim_issues active_issues completed_issues agent_issues add_held holders_of owner_issues
    doing_by_owner doing_issues ordered insert put look_up first_of_each doing_of is_retained
    retained_claims kept_current next_current repair_agent owned_current hold finish repair_owned
    repair_card repair_agents repair_cards repaired discard sort_by insert_by
repaired-is_clean = refl

repaired-IsRight_example :
    All
      (λ e. IsRight never_active none (cards_by_id [] owned_cards) e.1)
      (repaired never_active none (cards_by_id [] owned_cards) (agents_by_name [] stray_agents))
repaired-IsRight_example = repaired-IsRight never_active none owned_cards stray_agents

repaired-OwnerRight_example :
    All
      (λ e.
        OwnerRight
          (repaired never_active none (cards_by_id [] owned_cards) (agents_by_name [] stray_agents))
          e.1)
      (scoped_cards none (cards_by_id [] owned_cards))
repaired-OwnerRight_example = repaired-OwnerRight never_active none owned_cards stray_agents
