-- ===== src/Lifecycle/Settled.antt =====
-- src/skcoord/lifecycle.py: what an audit without issues says of the board.
use skcoord.Prelude.{
  String, ◌≡◌, refl, Bool, true, false, Option, some, get_or, List, [], ◌∷◌, map, All, contains,
  is_set, look_up,
}
use skcoord.Card.Model.{doing, Card}
use skcoord.Coord.Model.{AgentFile}
use skcoord.Lifecycle.Audit.{
  Issue, gathered, in_scope, cards_by_id, agents_by_name, scoped_cards, agent_issues, holders_of,
  holder_issues, owner_issues, doing_by_owner, Audit, is_clean, found_issues, audit_lifecycle,
}
use skcoord.Lifecycle.Quiet.{++-empty, gathered-empty, All-map, ordered-empty}
use skcoord.Lifecycle.Clean.{IsAligned, agent-IsAligned}
use skcoord.Lifecycle.Holders.{sole_claimant}
use skcoord.Lifecycle.Owners.{OwnerRight, owner_right, WorksOnOne, doing_right, IsAgreed}

All-files :
    (P : AgentFile → Type 0) (agents : List (String × AgentFile))
    → All P (map (λ (e : String × AgentFile). e.1) agents)
    → All (λ (e : String × AgentFile). P e.1) agents
All-files P [] all = tt
All-files P (e ∷ agents) (p, all) = (p, All-files P agents all)

found-IsAgreed :
    (scope : Option (List String)) (cards : List (String × Card))
    (agents : List (String × AgentFile))
    → found_issues scope cards agents ≡ []
    → IsAgreed scope cards agents
unfolding found_issues
found-IsAgreed scope cards agents h =
    let files = map (λ (e : String × AgentFile). e.1) agents in
    let seen = scoped_cards scope cards in
    let (of_files, rest) = ++-empty (gathered (agent_issues scope seen) files) _ h in
    let (of_holders, rest) = ++-empty (gathered holder_issues (holders_of scope files)) _ rest in
    let (of_owners, of_doing) = ++-empty (gathered (owner_issues agents) seen) _ rest in
    record {
      files =
          All-files (IsAligned scope cards) agents
            (All-map (agent-IsAligned scope cards) files (gathered-empty _ files of_files));
      owners = All-map (owner_right agents) seen (gathered-empty _ seen of_owners);
      holders = of_holders;
      doing_owners = gathered-empty _ (doing_by_owner cards) of_doing;
    }

no_issues : (audit : Audit) → is_clean audit ≡ true → audit.issues ≡ []
no_issues audit h = of_list audit.issues h
  where
    of_list : (l : List Issue) → elim l as (λ _. Bool) [ [] ↦ true | _ ∷ _ ↦ false ] ≡ true → l ≡ []
    of_list [] h = refl
    of_list (x ∷ l) h = cc

-- Where the audit is clean, all that it checks holds of the dicts of cards and agents.
pub clean-IsAgreed :
    (scope : Option (List String)) (cards : List Card) (agents : List AgentFile)
    → is_clean (audit_lifecycle scope cards agents) ≡ true
    → IsAgreed scope (cards_by_id [] cards) (agents_by_name [] agents)
unfolding audit_lifecycle
clean-IsAgreed scope cards agents h =
    found-IsAgreed scope (cards_by_id [] cards) (agents_by_name [] agents)
      (ordered-empty _ (no_issues (audit_lifecycle scope cards agents) h))

-- A clean audit speaks for every agent's file and every card in its scope. Each task that a file claims
-- has a card in ready, doing or review, which no other agent owns; a current task is claimed, and its
-- card is ready or in doing; a completed task's card, if it is there, is done. And the owner of a card
-- in ready, doing or review has a file, which claims the card.
pub clean_audit :
    (scope : Option (List String)) (cards : List Card) (agents : List AgentFile)
    → is_clean (audit_lifecycle scope cards agents) ≡ true
    → All (λ e. IsAligned scope (cards_by_id [] cards) e.1) (agents_by_name [] agents)
      × All
          (λ e. OwnerRight (agents_by_name [] agents) e.1)
          (scoped_cards scope (cards_by_id [] cards))
clean_audit scope cards agents h =
    let agreed = clean-IsAgreed scope cards agents h in (agreed.files, agreed.owners)

-- Where the audit is clean, a task in its scope has one claimant: two agents whose files claim it are
-- the same.
pub clean_audit_claimant :
    (scope : Option (List String)) (cards : List Card) (agents : List AgentFile) (id m n : String)
    {a b : AgentFile}
    → is_clean (audit_lifecycle scope cards agents) ≡ true
    → in_scope scope id ≡ true
    → look_up m (agents_by_name [] agents) ≡ some a
    → look_up n (agents_by_name [] agents) ≡ some b
    → contains id a.claimed_tasks ≡ true
    → contains id b.claimed_tasks ≡ true
    → a.agent ≡ b.agent
clean_audit_claimant scope cards agents id m n h =
    sole_claimant scope (agents_by_name [] agents) id m n
      ((clean-IsAgreed scope cards agents h).holders)

-- Where the audit is clean, the owner of a card in doing, in the audit's scope, has a file, and its
-- current task is the id of a card that is in doing and has this owner.
pub clean_audit_doing :
    (scope : Option (List String)) (cards : List Card) (agents : List AgentFile) (id : String)
    {c : Card}
    → is_clean (audit_lifecycle scope cards agents) ≡ true
    → look_up id (cards_by_id [] cards) ≡ some c
    → in_scope scope c.id ≡ true
    → is_set c.owner ≡ true
    → c.status ≡ doing
    → WorksOnOne (cards_by_id [] cards) (agents_by_name [] agents) (get_or c.owner "")
clean_audit_doing scope cards agents id h =
    doing_right scope (cards_by_id [] cards) (agents_by_name [] agents) id
      ((clean-IsAgreed scope cards agents h).doing_owners)
