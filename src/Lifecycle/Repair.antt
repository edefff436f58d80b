-- ===== src/Lifecycle/Repair.antt =====
-- src/skcoord/lifecycle.py: `_repair_lifecycle_unlocked`, as the agents' files that it writes. `active`
-- tells which agents' files `_is_active` takes as recently active, by the clock of the call.
use skcoord.Prelude.{
  String, Bool, true, false, not, ◌&&◌, ◌||◌, Option, none, some, get_or, List, [], ◌∷◌, ◌==◌,
  keep_if, append_one, contains, is_set, is_some, opt_eq, put, look_up, discard, sort_list,
  ordered_text, if◌then◌else◌,
}
use skcoord.Card.Model.{Column, backlog, doing, done, Card}
use skcoord.Coord.Model.{AgentFile, AgentState, fresh_agent}
use skcoord.Lifecycle.Audit.{in_scope, is_column, scoped_cards, doing_by_owner}

-- list(dict.fromkeys(texts))
unfoldable pub first_of_each : List String → List String
first_of_each [] = []
first_of_each (x ∷ xs) = x ∷ keep_if (λ y. not (y == x)) (first_of_each xs)

-- ids of a list that may be missing
abbrev pub listed : Option (List String) → List String
listed none = []
listed (some ids) = ids

-- task_ids is None or current_task in task_ids
abbrev pub current_in_scope : Option (List String) → Option String → Bool
current_in_scope none current = true
current_in_scope (some ids) none = false
current_in_scope (some ids) (some id) = contains id ids

abbrev pub is_in : Option String → List String → Bool
is_in none ids = false
is_in (some id) ids = contains id ids

-- ids[0], where there is one, else the default
abbrev pub first_or : Option String → List String → Option String
first_or default [] = default
first_or default (id ∷ ids) = some id

abbrev pub is_stopped : Option Card → Bool
is_stopped none = false
is_stopped (some c) = not (is_column c.status doing)

abbrev pub is_reopened : Option Card → Bool
is_reopened none = false
is_reopened (some c) = not (is_column c.status done)

abbrev pub add_missing : String → List String → List String
add_missing id ids = if contains id ids then ids else append_one ids id

unfoldable pub finish : Card → AgentFile → AgentFile
finish c owner = record owner { completed_tasks = add_missing c.id owner.completed_tasks }

-- AgentFile(agent=name, state=AgentState.OFFLINE)
abbrev pub offline : String → AgentFile
offline name = record (fresh_agent name) { state = AgentState.offline }

abbrev pub file_for : String → Option AgentFile → AgentFile
file_for name none = offline name
file_for name (some a) = a

module _ (active : String → Bool) (scope : Option (List String))
    (all_cards : List (String × Card)) where
  -- cards
  abbrev pub seen : List (String × Card)
  seen = scoped_cards scope all_cards

  -- sorted(doing_by_owner.get(owner, []))
  unfoldable pub doing_of : String → List String
  doing_of owner = sort_list (listed (look_up owner (doing_by_owner all_cards)))

  -- A claim is retained on a card in ready, doing or review that is not another agent's, and an active
  -- agent's on a card that is not there.
  abbrev pub retained_on : String → Option Card → Bool
  retained_on agent none = active agent
  retained_on agent (some c) =
      not (is_column c.status backlog || is_column c.status done)
      && not (is_set c.owner && not (get_or c.owner "" == agent))

  unfoldable pub is_retained : String → String → Bool
  is_retained agent id = if in_scope scope id then retained_on agent (look_up id seen) else true

  unfoldable pub retained_claims : AgentFile → List String
  retained_claims a = first_of_each (keep_if (is_retained a.agent) a.claimed_tasks)

  abbrev pub card_at : Option String → Option Card
  card_at none = none
  card_at (some id) = look_up id seen

  -- The current task, where it is still claimed and not stopped.
  unfoldable pub kept_current : List String → Option String → Option String
  kept_current claims current =
      if current_in_scope scope current
        && (not (is_in current claims) || is_stopped (card_at current))
      then none
      else current

  -- An agent without a current task takes the first of its cards in doing.
  unfoldable pub next_current : AgentFile → List String → Option String → Option String
  next_current a claims current =
      if current_in_scope scope a.current_task && not (is_some current)
      then first_or none
          (keep_if (λ id. contains id claims || in_scope scope id) (doing_of a.agent))
      else current

  unfoldable pub repair_agent : AgentFile → AgentFile
  repair_agent a =
      let claims = retained_claims a in
      record a {
        claimed_tasks = claims;
        current_task = next_current a claims (kept_current claims a.current_task);
        completed_tasks =
            keep_if (λ id. not (in_scope scope id && is_reopened (look_up id seen)))
              a.completed_tasks;
      }

  unfoldable pub owned_current : Card → AgentFile → Option String
  owned_current c owner =
      if is_column c.status doing
      then if is_in owner.current_task (doing_of owner.agent)
        then owner.current_task
        else first_or none (keep_if (λ id. is_some (look_up id seen)) (doing_of owner.agent))
      else if opt_eq owner.current_task (some c.id)
      then none
      else owner.current_task

  -- The owner's file for a card that is in none of backlog and done.
  unfoldable pub hold : Card → AgentFile → AgentFile
  hold c owner = record owner {
    claimed_tasks = add_missing c.id owner.claimed_tasks;
    completed_tasks = discard c.id owner.completed_tasks;
    current_task = owned_current c owner;
  }

  -- A file of the owner's that is not there and does not change is not written: a card in backlog.
  unfoldable pub repair_owned :
      Column → String → Card → List (String × AgentFile) → List (String × AgentFile)
  repair_owned backlog owner c agents = agents
  repair_owned done owner c agents =
      put owner (finish c (file_for owner (look_up owner agents))) agents
  repair_owned _ owner c agents = put owner (hold c (file_for owner (look_up owner agents))) agents

  unfoldable pub repair_card : List (String × AgentFile) → Card → List (String × AgentFile)
  repair_card agents c =
      if is_set c.owner then repair_owned c.status (get_or c.owner "") c agents else agents

  unfoldable pub repair_agents : List (String × AgentFile) → List (String × AgentFile)
  repair_agents [] = []
  repair_agents ((name, a) ∷ agents) = (name, repair_agent a) ∷ repair_agents agents

  unfoldable pub repair_cards :
      List (String × AgentFile) → List (String × Card) → List (String × AgentFile)
  repair_cards agents [] = agents
  repair_cards agents ((id, c) ∷ cards) = repair_cards (repair_card agents c) cards

  -- The agents' files behind both loops.
  unfoldable pub repaired : List (String × AgentFile) → List (String × AgentFile)
  repaired agents = repair_cards (repair_agents agents) seen
