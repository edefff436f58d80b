-- ===== src/Lifecycle/Clean.antt =====
-- src/skcoord/lifecycle.py: what an audit without issues says of an agent's file.
use skcoord.Prelude.{
  String, ◌≡◌, refl, sym, ap, ◌∙◌, subst, Bool, true, false, not, ◌&&◌, ◌⊎◌, inl, inr, Option, none,
  some, get_or, List, [], ◌∷◌, arith, ◌==◌, eq_iff, All, contains, is_set, truthy, look_up,
  Bool-cases, if◌then◌else◌,
}
use skcoord.Card.Model.{Column, backlog, ready, doing, review, done, Card}
use skcoord.Coord.Model.{AgentFile}
use skcoord.Lifecycle.Quiet.{++-empty, gathered-empty, All-map, quiet, look_up-scoped}
use skcoord.Lifecycle.Audit.{
  Issue, issue_if, gathered, in_scope, is_column, scoped_cards, current_issues, held_issues,
  claim_issues, reported_issues, active_issues, completed_issues, agent_issues, is_owned_column,
}

-- A card that an agent can hold, and that it can work on.
abbrev pub is_executing : Column → Bool
is_executing ready = true
is_executing doing = true
is_executing _ = false

module _ (scope : Option (List String)) (cards : List (String × Card)) where
  -- A claimed task's card is there and is ready, in doing or in review, and no one else owns it.
  abbrev pub HeldRight : AgentFile → String → Type 0
  HeldRight a id =
      (c : Card) × (look_up id cards ≡ some c)
      × (is_owned_column c.status ≡ true)
      × ((is_set c.owner ≡ false) ⊎ (c.owner ≡ some a.agent))

  -- The current task is claimed, and its card is ready or in doing.
  abbrev pub CurrentRight : AgentFile → Option String → Type 0
  CurrentRight a none = Unit
  CurrentRight a (some id) =
      (is_set (some id) ≡ false)
      ⊎ (in_scope scope id ≡ false)
      ⊎ (contains id a.claimed_tasks ≡ true)
        × ((c : Card) × (look_up id cards ≡ some c) × (is_executing c.status ≡ true))

  -- A completed task's card is done, if it is there.
  abbrev pub CompletedRight : String → Type 0
  CompletedRight id =
      (look_up id cards ≡ none) ⊎ (c : Card) × (look_up id cards ≡ some c) × (c.status ≡ done)

  pub record IsAligned (a : AgentFile) : Type 0 where
    pub held : All (λ id. (in_scope scope id ≡ false) ⊎ HeldRight a id) a.claimed_tasks
    pub current : CurrentRight a a.current_task
    pub completed : All (λ id. (in_scope scope id ≡ false) ⊎ CompletedRight id) a.completed_tasks

  pub unowned_or_own :
      (a : AgentFile) (o : Option String)
      → (is_set o && not (get_or o "" == a.agent)) ≡ false
      → (is_set o ≡ false) ⊎ (o ≡ some a.agent)
  unowned_or_own a none h = inl refl
  unowned_or_own a (some x) h = elim (Bool-cases (truthy x)) [
    | inl set ↦ inr (ap some ((eq_iff x a.agent).0 (ground arith)))
    | inr unset ↦ inl unset
  ]

  held_right :
      (a : AgentFile) (id : String) (c : Card)
      → held_issues scope cards a id c ≡ []
      → (is_owned_column c.status ≡ true) × ((is_set c.owner ≡ false) ⊎ (c.owner ≡ some a.agent))
  held_right a id c h = by_column c.status h
    where
      owned : Bool → List Issue
      owned b = issue_if b "claimant_not_owner" id (some a.agent)

      by_column :
          (s : Column)
          → (if is_column s done
              then issue_if true "done_still_claimed" id (some a.agent)
              else if is_column s backlog
              then issue_if true "backlog_still_claimed" id (some a.agent)
              else issue_if
                  (is_set c.owner && not (get_or c.owner "" == a.agent))
                  "claimant_not_owner"
                  id
                  (some a.agent))
            ≡ []
          → (is_owned_column s ≡ true) × ((is_set c.owner ≡ false) ⊎ (c.owner ≡ some a.agent))
      by_column backlog k = cc
      by_column done k = cc
      by_column ready k = (refl, unowned_or_own a c.owner (quiet _ _ _ _ k))
      by_column doing k = (refl, unowned_or_own a c.owner (quiet _ _ _ _ k))
      by_column review k = (refl, unowned_or_own a c.owner (quiet _ _ _ _ k))

  claim_right :
      (a : AgentFile) (id : String)
      → claim_issues scope (scoped_cards scope cards) a id ≡ []
      → (in_scope scope id ≡ false) ⊎ HeldRight a id
  unfolding claim_issues
  claim_right a id h = elim (Bool-cases (in_scope scope id)) [
    | inr unseen ↦ inl unseen
    | inl seen ↦ inr (
        found (look_up id cards) refl
          (subst (λ o. answer o ≡ []) (look_up-scoped scope cards id seen) (rw seen at h)))
  ]
    where
      answer : Option Card → List Issue
      answer none = issue_if true "orphan_claim" id (some a.agent)
      answer (some c) = held_issues scope cards a id c

      found : (o : Option Card) → look_up id cards ≡ o → answer o ≡ [] → HeldRight a id
      found none p k = cc
      found (some c) p k = let (column, own) = held_right a id c k in (c, p, column, own)

  -- The card of a current task, which is held, is neither in review nor done.
  executing :
      (a : AgentFile) (id : String) (c : Card)
      → is_owned_column c.status ≡ true
      → reported_issues scope cards a id c ≡ []
      → is_executing c.status ≡ true
  executing a id c o h = by_column c.status o h
    where
      by_column :
          (s : Column)
          → is_owned_column s ≡ true
          → (if is_column s review
              then issue_if true "review_reported_active" id (some a.agent)
              else issue_if (is_column s done) "done_reported_active" id (some a.agent))
            ≡ []
          → is_executing s ≡ true
      by_column backlog o k = cc
      by_column ready o k = refl
      by_column doing o k = refl
      by_column review o k = cc
      by_column done o k = cc

  held_of :
      (a : AgentFile) (id : String) (ids : List String)
      → All (λ id. (in_scope scope id ≡ false) ⊎ HeldRight a id) ids
      → contains id ids ≡ true
      → in_scope scope id ≡ true
      → HeldRight a id
  held_of a id [] all h seen = cc
  held_of a id (x ∷ ids) (now, all) h seen = elim (Bool-cases (id == x)) [
    | inl same ↦
        elim (subst (λ z. (in_scope scope z ≡ false) ⊎ HeldRight a z) (sym ((eq_iff id x).0 same))
          now) [ inl unseen ↦ absurd (ground arith) | inr right ↦ right ]
    | inr other ↦ held_of a id ids all (ground arith) seen
  ]

  current_right :
      (a : AgentFile) (o : Option String)
      → All (λ id. (in_scope scope id ≡ false) ⊎ HeldRight a id) a.claimed_tasks
      → current_issues scope (scoped_cards scope cards) a o ≡ []
      → active_issues scope (scoped_cards scope cards) a o ≡ []
      → CurrentRight a o
  unfolding current_issues active_issues
  current_right a none all h k = tt
  current_right a (some id) all h k = elim (Bool-cases (truthy id)) [
    | inr unset ↦ inl unset
    | inl set ↦ elim (Bool-cases (in_scope scope id)) [
      | inr unseen ↦ inr (inl unseen)
      | inl seen ↦
          let claimed =
            quiet (truthy id && not (contains id a.claimed_tasks) && in_scope scope id)
              "current_not_claimed" id (some a.agent) h in
          let mine : contains id a.claimed_tasks ≡ true = ground arith in
          let (c, found, column, own) = held_of a id a.claimed_tasks all mine seen in
          inr (
            inr (
              mine,
              (
                c,
                found,
                executing a id c column (
                    subst (λ o. answer id o ≡ []) (look_up-scoped scope cards id seen ∙ found)
                      (rw (set, seen) at k)),
              ),
            ))
    ]
  ]
    where
      answer : String → Option Card → List Issue
      answer id none = []
      answer id (some c) = reported_issues scope cards a id c

  completed_right :
      (a : AgentFile) (id : String)
      → completed_issues scope (scoped_cards scope cards) a id ≡ []
      → (in_scope scope id ≡ false) ⊎ CompletedRight id
  unfolding completed_issues
  completed_right a id h = elim (Bool-cases (in_scope scope id)) [
    | inr unseen ↦ inl unseen
    | inl seen ↦ inr (
        found (look_up id cards) refl
          (subst (λ o. answer o ≡ []) (look_up-scoped scope cards id seen) (rw seen at h)))
  ]
    where
      answer : Option Card → List Issue
      answer none = []
      answer (some c) =
          issue_if (not (is_column c.status done)) "reopened_still_completed" id (some a.agent)

      is_done_column : (s : Column) → not (is_column s done) ≡ false → s ≡ done
      is_done_column done k = refl
      is_done_column backlog k = cc
      is_done_column ready k = cc
      is_done_column doing k = cc
      is_done_column review k = cc

      found : (o : Option Card) → look_up id cards ≡ o → answer o ≡ [] → CompletedRight id
      found none p k = inl p
      found (some c) p k = inr (c, p, is_done_column c.status (quiet _ _ _ _ k))

  pub agent-IsAligned :
      (a : AgentFile) → agent_issues scope (scoped_cards scope cards) a ≡ [] → IsAligned a
  unfolding agent_issues
  agent-IsAligned a h =
      let (current, rest) =
        ++-empty (current_issues scope (scoped_cards scope cards) a a.current_task) _ h in
      let (claims, rest) =
        ++-empty (gathered (claim_issues scope (scoped_cards scope cards) a) a.claimed_tasks) _
          rest in
      let (active, completed) =
        ++-empty (active_issues scope (scoped_cards scope cards) a a.current_task) _ rest in
      let held =
        All-map (claim_right a) a.claimed_tasks (gathered-empty _ a.claimed_tasks claims) in
      record {
        held = held;
        current = current_right a a.current_task held current active;
        completed =
            All-map (completed_right a) a.completed_tasks
              (gathered-empty _ a.completed_tasks completed);
      }
