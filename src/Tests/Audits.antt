-- ===== src/Tests/Audits.antt =====
-- The audit: the theorems on src/skcoord/lifecycle.py at a board on which all agrees.
use skcoord.Prelude.{true, ◌≡◌, refl, none, some, List, [], ◌∷◌, All, look_up, put}
use skcoord.Card.Model.{doing, done, Card}
use skcoord.Coord.Model.{AgentFile, fresh_agent}
use skcoord.Tests.Boards.{some_card}
use skcoord.Lifecycle.Audit.{
  cards_by_id, agents_by_name, scoped_cards, current_issues, claim_issues, active_issues,
  completed_issues, agent_issues, add_held, holders_of, owner_issues, doing_by_owner, doing_issues,
  insert, ordered, is_clean, found_issues, audit_lifecycle,
}
use skcoord.Lifecycle.Clean.{IsAligned}
use skcoord.Lifecycle.Owners.{OwnerRight, WorksOnOne}
use skcoord.Lifecycle.Settled.{clean_audit, clean_audit_claimant, clean_audit_doing}

abbrev doing_card : Card
doing_card = record some_card { status = doing; owner = some "opus" }

abbrev done_card : Card
done_card = record some_card { id = "card-2"; status = done }

abbrev board_cards : List Card
board_cards = doing_card ∷ done_card ∷ []

abbrev opus : AgentFile
opus = record (fresh_agent "opus") {
  claimed_tasks = "card-1" ∷ [];
  completed_tasks = "card-2" ∷ [];
  current_task = some "card-1";
}

abbrev board_agents : List AgentFile
board_agents = opus ∷ fresh_agent "jarvis" ∷ []

board_is_clean : is_clean (audit_lifecycle none board_cards board_agents) ≡ true
unfolding audit_lifecycle found_issues cards_by_id agents_by_name scoped_cards current_issues
    claim_issues active_issues completed_issues agent_issues add_held holders_of owner_issues
    doing_by_owner doing_issues ordered insert put look_up
board_is_clean = refl

clean_audit_example :
    All (λ e. IsAligned none (cards_by_id [] board_cards) e.1) (agents_by_name [] board_agents)
    × All
        (λ e. OwnerRight (agents_by_name [] board_agents) e.1)
        (scoped_cards none (cards_by_id [] board_cards))
clean_audit_example = clean_audit none board_cards board_agents board_is_clean

clean_audit_claimant_example : opus.agent ≡ opus.agent
unfolding agents_by_name put look_up
clean_audit_claimant_example =
    clean_audit_claimant none board_cards board_agents "card-1" "opus" "opus" {a = opus} {b = opus}
      board_is_clean refl refl refl refl refl

clean_audit_doing_example :
    WorksOnOne (cards_by_id [] board_cards) (agents_by_name [] board_agents) "opus"
unfolding cards_by_id put look_up
clean_audit_doing_example =
    clean_audit_doing none board_cards board_agents "card-1" {c = doing_card} board_is_clean refl
      refl refl refl
