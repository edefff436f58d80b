-- ===== src/Lifecycle/Audit.antt =====
-- src/skcoord/lifecycle.py: `_audit_lifecycle_unlocked`. The board's agents and cards are the lists that
-- its readers return; an issue is without its detail, a text for the reader.
use Prim.Native.Nat.{Ordering}
use Prim.Native.String.{compare}
use skcoord.Prelude.{
  ℕ, String, Bool, true, false, not, ◌&&◌, Option, none, some, get_or, List, [], ◌∷◌, ◌++◌, map,
  foldl, ◌==◌, any_of, keep_if, append_one, contains, is_set, is_some, put, look_up, length,
  if◌then◌else◌,
}
use skcoord.Card.Model.{Column, backlog, ready, doing, review, done, Card}
use skcoord.Coord.Model.{AgentFile}

pub record Issue : Type 0 where
  pub code : String
  pub task_id : String
  pub agent : Option String

-- [issue] where the test holds
abbrev pub issue_if : Bool → String → String → Option String → List Issue
issue_if true code task_id agent = record { code = code; task_id = task_id; agent = agent } ∷ []
issue_if false code task_id agent = []

module _ {A : Type 0} where
  -- The issues of one after the other.
  abbrev pub gathered : (A → List Issue) → List A → List Issue
  gathered issues [] = []
  gathered issues (x ∷ xs) = issues x ++ gathered issues xs

-- Whether a task is in the scope, and everything is where there is no scope.
abbrev pub in_scope : Option (List String) → String → Bool
in_scope none task_id = true
in_scope (some task_ids) task_id = contains task_id task_ids

abbrev pub is_column : Column → Column → Bool
is_column backlog backlog = true
is_column ready ready = true
is_column doing doing = true
is_column review review = true
is_column done done = true
is_column _ _ = false

-- {card.id: card for card in cards} and {agent.agent: agent for agent in agents}
unfoldable pub cards_by_id : List (String × Card) → List Card → List (String × Card)
cards_by_id found [] = found
cards_by_id found (c ∷ cards) = cards_by_id (put c.id c found) cards

unfoldable pub agents_by_name :
    List (String × AgentFile) → List AgentFile → List (String × AgentFile)
agents_by_name found [] = found
agents_by_name found (a ∷ agents) = agents_by_name (put a.agent a found) agents

unfoldable pub scoped_cards : Option (List String) → List (String × Card) → List (String × Card)
scoped_cards scope [] = []
scoped_cards scope ((id, c) ∷ cards) =
    let rest = scoped_cards scope cards in if in_scope scope id then (id, c) ∷ rest else rest

module _ (scope : Option (List String)) (cards : List (String × Card)) where
  unfoldable pub current_issues : AgentFile → Option String → List Issue
  current_issues a none = []
  current_issues a (some id) =
      issue_if (is_set (some id) && not (contains id a.claimed_tasks) && in_scope scope id)
        "current_not_claimed" id (some a.agent)

  -- A claimed task whose card is there.
  abbrev pub held_issues : AgentFile → String → Card → List Issue
  held_issues a id c =
      if is_column c.status done
      then issue_if true "done_still_claimed" id (some a.agent)
      else if is_column c.status backlog
      then issue_if true "backlog_still_claimed" id (some a.agent)
      else issue_if (is_set c.owner && not (get_or c.owner "" == a.agent)) "claimant_not_owner" id
          (some a.agent)

  unfoldable pub claim_issues : AgentFile → String → List Issue
  claim_issues a id = if not (in_scope scope id) then [] else elim (look_up id cards) [
    | none ↦ issue_if true "orphan_claim" id (some a.agent)
    | some c ↦ held_issues a id c
  ]

  abbrev pub reported_issues : AgentFile → String → Card → List Issue
  reported_issues a id c =
      if is_column c.status review
      then issue_if true "review_reported_active" id (some a.agent)
      else issue_if (is_column c.status done) "done_reported_active" id (some a.agent)

  unfoldable pub active_issues : AgentFile → Option String → List Issue
  active_issues a none = []
  active_issues a (some id) =
      if not (is_set (some id) && in_scope scope id)
      then []
      else elim (look_up id cards) [ none ↦ [] | some c ↦ reported_issues a id c ]

  unfoldable pub completed_issues : AgentFile → String → List Issue
  completed_issues a id = if not (in_scope scope id) then [] else elim (look_up id cards) [
    | none ↦ []
    | some c ↦ issue_if (not (is_column c.status done)) "reopened_still_completed" id (some a.agent)
  ]

  unfoldable pub agent_issues : AgentFile → List Issue
  unfolding current_issues claim_issues active_issues completed_issues
  agent_issues a =
      current_issues a a.current_task
      ++ (gathered (claim_issues a) a.claimed_tasks
          ++ (active_issues a a.current_task ++ gathered (completed_issues a) a.completed_tasks))

-- holders.setdefault(task_id, []).append(name)
abbrev pub add_to : String → String → List (String × List String) → List (String × List String)
add_to key name d = put key (append_one (get_or (look_up key d) []) name) d

unfoldable pub add_held :
    Option (List String)
    → String
    → List String
    → List (String × List String)
    → List (String × List String)
add_held scope name [] holders = holders
add_held scope name (id ∷ ids) holders =
    add_held scope name ids (if in_scope scope id then add_to id name holders else holders)

unfoldable pub holders_of : Option (List String) → List AgentFile → List (String × List String)
unfolding add_held
holders_of scope agents =
    foldl (λ holders (a : AgentFile). add_held scope a.agent a.claimed_tasks holders) [] agents

-- len(set(owners)) > 1
abbrev pub are_several : List String → Bool
are_several [] = false
are_several (o ∷ owners) = any_of (λ p. not (p == o)) owners

abbrev pub holder_issues : String × List String → List Issue
holder_issues (id, owners) = issue_if (are_several owners) "multiple_claimants" id none

-- owner is None or card.id not in owner.claimed_tasks
abbrev pub lacks_claim : Option AgentFile → String → Bool
lacks_claim none id = true
lacks_claim (some a) id = not (contains id a.claimed_tasks)

-- A card in ready, review or doing.
abbrev pub is_owned_column : Column → Bool
is_owned_column backlog = false
is_owned_column done = false
is_owned_column _ = true

module _ (agents : List (String × AgentFile)) where
  unfoldable pub owner_issues : String × Card → List Issue
  owner_issues (id, c) =
      issue_if
        (is_set c.owner
          && is_owned_column c.status
          && lacks_claim (look_up (get_or c.owner "") agents) c.id)
        "owner_claim_missing" c.id c.owner

-- doing_by_owner
unfoldable pub doing_by_owner : List (String × Card) → List (String × List String)
doing_by_owner cards =
    foldl
      (λ owned (e : String × Card).
        if (is_set e.1.owner && is_column e.1.status doing)
        then add_to (get_or e.1.owner "") e.1.id owned
        else owned)
      [] cards

-- owner is None or owner.current_task not in doing_ids
abbrev pub is_elsewhere : Option AgentFile → List String → Bool
is_elsewhere none ids = true
is_elsewhere (some a) ids = not (is_some a.current_task && contains (get_or a.current_task "") ids)

-- sorted(ids)[0]
unfoldable pub least : String → List String → String
least best [] = best
least best (t ∷ ts) = least (elim (compare t best) [ Ordering.lt ↦ t | _ ↦ best ]) ts

abbrev pub doing_issues_of : Option AgentFile → String → List String → List String → List Issue
doing_issues_of o name ids [] = []
doing_issues_of o name ids (t ∷ ts) =
    issue_if (is_elsewhere o ids) "doing_owner_not_current" (least t ts) (some name)

module _ (scope : Option (List String)) (agents : List (String × AgentFile)) where
  unfoldable pub doing_issues : String × List String → List Issue
  doing_issues (name, ids) =
      doing_issues_of (look_up name agents) name ids (keep_if (in_scope scope) ids)

-- The order of the report, by task, code and agent.
abbrev pub text_first : String → String → Bool → Bool
text_first s t otherwise = elim (compare s t) [
  | Ordering.lt ↦ true
  | Ordering.eq ↦ otherwise
  | Ordering.gt ↦ false
]

abbrev pub not_after : Issue → Issue → Bool
not_after x y =
    text_first x.task_id y.task_id
      (text_first x.code y.code (text_first (get_or x.agent "") (get_or y.agent "") true))

unfoldable pub insert : Issue → List Issue → List Issue
insert x [] = x ∷ []
insert x (y ∷ issues) =
    let rest = insert x issues in if not_after x y then x ∷ y ∷ issues else y ∷ rest

unfoldable pub ordered : List Issue → List Issue
unfolding insert
ordered [] = []
ordered (x ∷ issues) = insert x (ordered issues)

pub record Audit : Type 0 where
  pub card_count : ℕ
  pub agent_count : ℕ
  pub issues : List Issue

abbrev pub is_clean : Audit → Bool
is_clean audit = elim audit.issues [ [] ↦ true | _ ∷ _ ↦ false ]

-- The issues of the dicts, in the order in which they are found.
unfoldable pub found_issues :
    Option (List String) → List (String × Card) → List (String × AgentFile) → List Issue
unfolding scoped_cards agent_issues holders_of owner_issues doing_by_owner doing_issues
found_issues scope all_cards agents =
    let cards = scoped_cards scope all_cards in
    let files = map (λ (e : String × AgentFile). e.1) agents in
    gathered (agent_issues scope cards) files
    ++ (gathered holder_issues (holders_of scope files)
        ++ (gathered (owner_issues agents) cards
            ++ gathered (doing_issues scope agents) (doing_by_owner all_cards)))

unfoldable pub audit_lifecycle : Option (List String) → List Card → List AgentFile → Audit
unfolding found_issues cards_by_id agents_by_name ordered
audit_lifecycle scope cards agents =
    let all_cards = cards_by_id [] cards in
    let by_name = agents_by_name [] agents in
    record {
      card_count = length (scoped_cards scope all_cards);
      agent_count = length by_name;
      issues = ordered (found_issues scope all_cards by_name);
    }
