-- ===== src/Lifecycle/Served.antt =====
-- src/skcoord/lifecycle.py: behind a repair the owner of each card that is ready, in doing or in review
-- has a file that claims it.
use skcoord.Prelude.{
  String, ◌≡◌, refl, ◌∙◌, inl, inr, Bool, true, Option, some, get_or, List, [], ◌∷◌, arith, ◌==◌,
  eq_iff, All, Bool-cases, contains, contains-append_one, is_set, put, look_up, look_up-put,
}
use skcoord.Card.Model.{Column, backlog, ready, doing, review, done, Card}
use skcoord.Coord.Model.{AgentFile}
use skcoord.Lifecycle.Audit.{is_owned_column, scoped_cards, cards_by_id, agents_by_name}
use skcoord.Lifecycle.Owners.{OwnerRight}
use skcoord.Lifecycle.Repair.{
  hold, finish, file_for, repair_owned, repair_card, repair_cards, repaired, add_missing,
}

-- The agent of that name has a file that claims the task.
abbrev HasClaim : String → String → List (String × AgentFile) → Type 0
HasClaim name id agents =
    (a : AgentFile) × (look_up name agents ≡ some a) × (contains id a.claimed_tasks ≡ true)

contains-add_missing :
    (x id : String) (l : List String) → contains x l ≡ true → contains x (add_missing id l) ≡ true
contains-add_missing x id l h = elim (Bool-cases (contains id l)) [
  | inl there ↦ rw there h
  | inr new ↦ rw new (contains-append_one x id l ∙ ground arith)
]

add_missing_self : (id : String) (l : List String) → contains id (add_missing id l) ≡ true
add_missing_self id l = elim (Bool-cases (contains id l)) [
  | inl there ↦ rw there there
  | inr new ↦ rw new (contains-append_one id id l ∙ ground (arith, eq_iff id id))
]

-- A file written under a name is the one found, with at least the claims of the one before it.
put-HasClaim :
    (name id owner : String) (agents : List (String × AgentFile)) (change : AgentFile → AgentFile)
    → ((a : AgentFile)
        → contains id a.claimed_tasks ≡ true
        → contains id (change a).claimed_tasks ≡ true)
    → HasClaim name id agents
    → HasClaim name id (put owner (change (file_for owner (look_up owner agents))) agents)
put-HasClaim name id owner agents change grows (a, found, held) =
    elim (Bool-cases (owner == name)) [
      | inl same ↦ (
        change a,
        look_up-put owner name _ agents ∙ rw (same, (eq_iff owner name).0 same, found) refl,
        grows a held,
      )
      | inr other ↦ (a, look_up-put owner name _ agents ∙ rw other found, held)
    ]

put-found :
    (owner : String) (a : AgentFile) (agents : List (String × AgentFile))
    → look_up owner (put owner a agents) ≡ some a
put-found owner a agents = look_up-put owner owner a agents ∙ rw ((eq_iff owner owner).1 refl) refl

module _ (active : String → Bool) (scope : Option (List String))
    (cards : List (String × Card)) where
  hold-grows :
      (c : Card) (id : String) (a : AgentFile)
      → contains id a.claimed_tasks ≡ true
      → contains id (hold active scope cards c a).claimed_tasks ≡ true
  unfolding hold
  hold-grows c id a h = contains-add_missing id c.id a.claimed_tasks h

  repair_owned-HasClaim :
      (status : Column) (owner : String) (c : Card) (name id : String)
      (agents : List (String × AgentFile))
      → HasClaim name id agents
      → HasClaim name id (repair_owned active scope cards status owner c agents)
  unfolding repair_owned finish
  repair_owned-HasClaim backlog owner c name id agents h = h
  repair_owned-HasClaim done owner c name id agents h =
      put-HasClaim name id owner agents (finish c) (λ a held. held) h
  repair_owned-HasClaim ready owner c name id agents h =
      put-HasClaim name id owner agents (hold active scope cards c) (hold-grows c id) h
  repair_owned-HasClaim doing owner c name id agents h =
      put-HasClaim name id owner agents (hold active scope cards c) (hold-grows c id) h
  repair_owned-HasClaim review owner c name id agents h =
      put-HasClaim name id owner agents (hold active scope cards c) (hold-grows c id) h

  repair_card-HasClaim :
      (c : Card) (name id : String) (agents : List (String × AgentFile))
      → HasClaim name id agents
      → HasClaim name id (repair_card active scope cards agents c)
  unfolding repair_card
  repair_card-HasClaim c name id agents h = elim (Bool-cases (is_set c.owner)) [
    | inl set ↦ rw set (repair_owned-HasClaim c.status (get_or c.owner "") c name id agents h)
    | inr unset ↦ rw unset h
  ]

  repair_cards-HasClaim :
      (name id : String) (agents : List (String × AgentFile)) (l : List (String × Card))
      → HasClaim name id agents
      → HasClaim name id (repair_cards active scope cards agents l)
  unfolding repair_cards
  repair_cards-HasClaim name id agents [] h = h
  repair_cards-HasClaim name id agents ((key, c) ∷ l) h =
      repair_cards-HasClaim name id (repair_card active scope cards agents c) l
        (repair_card-HasClaim c name id agents h)

  held-HasClaim :
      (owner : String) (c : Card) (agents : List (String × AgentFile))
      → HasClaim owner c.id
          (put owner (hold active scope cards c (file_for owner (look_up owner agents))) agents)
  unfolding hold
  held-HasClaim owner c agents = (
    _,
    put-found owner _ agents,
    add_missing_self c.id (file_for owner (look_up owner agents)).claimed_tasks,
  )

  -- The step on a card gives its owner the claim.
  owned-HasClaim :
      (status : Column) (owner : String) (c : Card) (agents : List (String × AgentFile))
      → is_owned_column status ≡ true
      → HasClaim owner c.id (repair_owned active scope cards status owner c agents)
  unfolding repair_owned
  owned-HasClaim backlog owner c agents h = cc
  owned-HasClaim done owner c agents h = cc
  owned-HasClaim ready owner c agents h = held-HasClaim owner c agents
  owned-HasClaim doing owner c agents h = held-HasClaim owner c agents
  owned-HasClaim review owner c agents h = held-HasClaim owner c agents

  step-OwnerRight :
      (c : Card) (agents : List (String × AgentFile)) (rest : List (String × Card))
      → OwnerRight
          (repair_cards active scope cards (repair_card active scope cards agents c) rest)
          c
  unfolding repair_card
  step-OwnerRight c agents rest = elim (Bool-cases (is_set c.owner)) [
    | inr unset ↦ inl unset
    | inl set ↦ elim (Bool-cases (is_owned_column c.status)) [
      | inr away ↦ inr (inl away)
      | inl owned ↦ inr (
          inr (
            repair_cards-HasClaim (get_or c.owner "") c.id _ rest
              (rw set (owned-HasClaim c.status (get_or c.owner "") c agents owned))))
    ]
  ]

  repair_cards-OwnerRight :
      (agents : List (String × AgentFile)) (l : List (String × Card))
      → All (λ e. OwnerRight (repair_cards active scope cards agents l) e.1) l
  unfolding repair_cards
  repair_cards-OwnerRight agents [] = tt
  repair_cards-OwnerRight agents ((id, c) ∷ l) = (
    step-OwnerRight c agents l,
    repair_cards-OwnerRight (repair_card active scope cards agents c) l,
  )

-- Behind a repair, each card in the scope that is ready, in doing or in review and has an owner is
-- claimed in its owner's file, whatever the files held before.
pub repaired-OwnerRight :
    (active : String → Bool) (scope : Option (List String)) (cards : List Card)
    (agents : List AgentFile)
    → All
        (λ e.
          OwnerRight (repaired active scope (cards_by_id [] cards) (agents_by_name [] agents)) e.1)
        (scoped_cards scope (cards_by_id [] cards))
unfolding repaired
repaired-OwnerRight active scope cards agents =
    repair_cards-OwnerRight active scope (cards_by_id [] cards) _
      (scoped_cards scope (cards_by_id [] cards))
