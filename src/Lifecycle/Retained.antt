-- ===== src/Lifecycle/Retained.antt =====
-- src/skcoord/lifecycle.py: every claim in a repaired file is right, or an active agent's on a card that
-- is not there.
use skcoord.Prelude.{
  String, ◌≡◌, refl, ap, subst, ◌∙◌, ◌⊎◌, inl, inr, Bool, true, false, not, ◌&&◌, ◌||◌, Option,
  none, some, get_or, Option-cases, List, [], ◌∷◌, arith, ◌==◌, eq_iff, truthy, All, All-mono,
  All-keep_if, Bool-cases, contains, keep_if, append_one, is_set, put, look_up, discard,
  if◌then◌else◌,
}
use skcoord.Card.Model.{Column, backlog, ready, doing, review, done, Card}
use skcoord.Coord.Model.{AgentFile}
use skcoord.Lifecycle.Audit.{
  in_scope, is_column, is_owned_column, scoped_cards, cards_by_id, agents_by_name,
}
use skcoord.Lifecycle.Clean.{HeldRight, CompletedRight, unowned_or_own}
use skcoord.Lifecycle.Repair.{
  first_of_each, seen, retained_on, is_retained, retained_claims, is_reopened, repair_agent, hold,
  finish, file_for, repair_owned, repair_card, repair_agents, repair_cards, repaired, add_missing,
}
use skcoord.Lifecycle.Dicts.{put-All, look_up-All, agents_by_name-named, scoped-found}

-- What a filter keeps has passed its test.
kept-All : (test : String → Bool) (l : List String) → All (λ x. test x ≡ true) (keep_if test l)
kept-All test [] = tt
kept-All test (x ∷ l) = elim (Bool-cases (test x)) [
  | inl kept ↦ rw kept (kept, kept-All test l)
  | inr dropped ↦ rw dropped (kept-All test l)
]

first_of_each-All : (P : String → Type 0) (l : List String) → All P l → All P (first_of_each l)
unfolding first_of_each
first_of_each-All P [] all = tt
first_of_each-All P (x ∷ l) (p, all) =
    (p, All-keep_if P (λ y. not (y == x)) (first_of_each l) (first_of_each-All P l all))

add_missing-All :
    (P : String → Type 0) (id : String) (l : List String)
    → P id
    → All P l
    → All P (add_missing id l)
add_missing-All P id l p all = elim (Bool-cases (contains id l)) [
  | inl there ↦ rw there all
  | inr new ↦ rw new (appended l all)
]
  where
    appended : (l : List String) → All P l → All P (append_one l id)
    appended [] all = (p, tt)
    appended (x ∷ l) (q, all) = (q, appended l all)

discard-All : (P : String → Type 0) (id : String) (l : List String) → All P l → All P (discard id l)
unfolding discard
discard-All P id [] all = tt
discard-All P id (x ∷ l) (p, all) = elim (Bool-cases (x == id)) [
  | inl same ↦ rw same all
  | inr other ↦ rw other (p, discard-All P id l all)
]

module _ (active : String → Bool) (scope : Option (List String))
    (cards : List (String × Card)) where
  -- Not a task in the scope whose card is there and not done.
  abbrev stays_completed : String → Bool
  stays_completed id = not (in_scope scope id && is_reopened (look_up id (seen active scope cards)))

  -- A file that stands under its agent's name, with claims that are retained and completed tasks that
  -- are not reopened.
  abbrev IsKept : String × AgentFile → Type 0
  IsKept e =
      (e.1.agent ≡ e.0)
      × All (λ id. is_retained active scope cards e.0 id ≡ true) e.1.claimed_tasks
      × All (λ id. stays_completed id ≡ true) e.1.completed_tasks

  repair_agents-IsKept :
      (agents : List (String × AgentFile))
      → All (λ e. e.1.agent ≡ e.0) agents
      → All IsKept (repair_agents active scope cards agents)
  unfolding repair_agents repair_agent retained_claims
  repair_agents-IsKept [] named = tt
  repair_agents-IsKept ((name, a) ∷ agents) (n, named) = (
    (
      n,
      subst
          (λ m.
            All (λ id. is_retained active scope cards m id ≡ true)
              (first_of_each (keep_if (is_retained active scope cards a.agent) a.claimed_tasks)))
          n
          (first_of_each-All _ _
            (kept-All (is_retained active scope cards a.agent) a.claimed_tasks)),
      kept-All stays_completed a.completed_tasks,
    ),
    repair_agents-IsKept agents named,
  )

  -- The owner of a card in ready, doing or review retains a claim on it.
  owner_retains :
      (owner : String) (c : Card)
      → look_up c.id (seen active scope cards) ≡ some c
      → c.owner ≡ some owner
      → (not (is_column c.status backlog || is_column c.status done)) ≡ true
      → is_retained active scope cards owner c.id ≡ true
  unfolding is_retained
  owner_retains owner c found owned held = elim (Bool-cases (in_scope scope c.id)) [
    | inl inside ↦ rw (inside, found, owned) (ground (arith, eq_iff owner owner))
    | inr outside ↦ rw outside refl
  ]

  file_for-IsKept :
      (name : String) (agents : List (String × AgentFile))
      → All IsKept agents
      → IsKept (name, file_for name (look_up name agents))
  file_for-IsKept name agents all = elim (Option-cases (look_up name agents)) [
    | inl missing ↦ rw missing (refl, tt, tt)
    | inr (a, found) ↦ rw found (look_up-All IsKept name a agents all found)
  ]

  held-IsKept :
      (owner : String) (c : Card) (agents : List (String × AgentFile))
      → is_retained active scope cards owner c.id ≡ true
      → All IsKept agents
      → All IsKept
          (put owner (hold active scope cards c (file_for owner (look_up owner agents))) agents)
  unfolding hold
  held-IsKept owner c agents retains all =
      let (named, claims, completed) = file_for-IsKept owner agents all in
      put-All IsKept owner _ agents
        (
          named,
          add_missing-All (λ id. is_retained active scope cards owner id ≡ true) c.id _ retains
              claims,
          discard-All (λ id. stays_completed id ≡ true) c.id _ completed,
        )
        all

  repair_owned-IsKept :
      (status : Column) (owner : String) (c : Card) (agents : List (String × AgentFile))
      → c.status ≡ status
      → look_up c.id (seen active scope cards) ≡ some c
      → c.owner ≡ some owner
      → All IsKept agents
      → All IsKept (repair_owned active scope cards status owner c agents)
  unfolding repair_owned finish
  repair_owned-IsKept backlog owner c agents at found owned all = all
  repair_owned-IsKept done owner c agents at found owned all =
      let (named, claims, completed) = file_for-IsKept owner agents all in
      put-All IsKept owner _ agents
        (
          named,
          claims,
          add_missing-All (λ id. stays_completed id ≡ true) c.id _ (rw (found, at) (ground arith))
              completed,
        )
        all
  repair_owned-IsKept ready owner c agents at found owned all =
      held-IsKept owner c agents (owner_retains owner c found owned (rw at refl)) all
  repair_owned-IsKept doing owner c agents at found owned all =
      held-IsKept owner c agents (owner_retains owner c found owned (rw at refl)) all
  repair_owned-IsKept review owner c agents at found owned all =
      held-IsKept owner c agents (owner_retains owner c found owned (rw at refl)) all

  repair_card-IsKept :
      (c : Card) (agents : List (String × AgentFile))
      → look_up c.id (seen active scope cards) ≡ some c
      → All IsKept agents
      → All IsKept (repair_card active scope cards agents c)
  unfolding repair_card
  repair_card-IsKept c agents found all = by_owner c.owner refl
    where
      by_owner :
          (o : Option String)
          → c.owner ≡ o
          → All IsKept (
              if is_set o
              then repair_owned active scope cards c.status (get_or o "") c agents
              else agents)
      by_owner none owned = all
      by_owner (some owner) owned = elim (Bool-cases (truthy owner)) [
        | inl set ↦ rw set (repair_owned-IsKept c.status owner c agents refl found owned all)
        | inr unset ↦ rw unset all
      ]

  repair_cards-IsKept :
      (agents : List (String × AgentFile)) (l : List (String × Card))
      → All IsKept agents
      → All (λ e. look_up e.1.id (seen active scope cards) ≡ some e.1) l
      → All IsKept (repair_cards active scope cards agents l)
  unfolding repair_cards
  repair_cards-IsKept agents [] all found = all
  repair_cards-IsKept agents ((id, c) ∷ l) all (here, found) =
      repair_cards-IsKept (repair_card active scope cards agents c) l
        (repair_card-IsKept c agents here all) found

  -- What a retained claim is on.
  abbrev pub RightOrGone : AgentFile → String → Type 0
  RightOrGone a id =
      (in_scope scope id ≡ false)
      ⊎ ((look_up id (scoped_cards scope cards) ≡ none) × (active a.agent ≡ true))
      ⊎ HeldRight scope (scoped_cards scope cards) a id

  retained_right :
      (a : AgentFile) (id : String)
      → is_retained active scope cards a.agent id ≡ true
      → RightOrGone a id
  unfolding is_retained
  retained_right a id h = elim (Bool-cases (in_scope scope id)) [
    | inr outside ↦ inl outside
    | inl inside ↦ inr (by_card (look_up id (scoped_cards scope cards)) refl (rw inside at h))
  ]
    where
      by_card :
          (o : Option Card)
          → look_up id (scoped_cards scope cards) ≡ o
          → retained_on active scope cards a.agent o ≡ true
          → ((look_up id (scoped_cards scope cards) ≡ none) × (active a.agent ≡ true))
            ⊎ HeldRight scope (scoped_cards scope cards) a id
      by_card none e g = inl (e, g)
      by_card (some c) e g = inr (
        c,
        e,
        owned_column c.status (ground arith),
        unowned_or_own scope cards a c.owner (ground arith),
      )
        where
          owned_column :
              (s : Column)
              → (is_column s backlog || is_column s done) ≡ false
              → is_owned_column s ≡ true
          owned_column backlog k = cc
          owned_column ready k = refl
          owned_column doing k = refl
          owned_column review k = refl
          owned_column done k = cc

  completed_right :
      (id : String)
      → stays_completed id ≡ true
      → (in_scope scope id ≡ false) ⊎ CompletedRight scope (scoped_cards scope cards) id
  completed_right id h = elim (Bool-cases (in_scope scope id)) [
    | inr outside ↦ inl outside
    | inl inside ↦ inr (by_card (look_up id (scoped_cards scope cards)) refl (rw inside at h))
  ]
    where
      by_card :
          (o : Option Card)
          → look_up id (scoped_cards scope cards) ≡ o
          → not (is_reopened o) ≡ true
          → CompletedRight scope (scoped_cards scope cards) id
      by_card none e g = inl e
      by_card (some c) e g = inr (c, e, done_column c.status g)
        where
          done_column : (s : Column) → not (not (is_column s done)) ≡ true → s ≡ done
          done_column backlog k = cc
          done_column ready k = cc
          done_column doing k = cc
          done_column review k = cc
          done_column done k = refl

  -- A file whose claims and completed tasks are right.
  pub record IsRight (a : AgentFile) : Type 0 where
    pub claims : All (RightOrGone a) a.claimed_tasks
    pub completed :
        All
          (λ id. (in_scope scope id ≡ false) ⊎ CompletedRight scope (scoped_cards scope cards) id)
          a.completed_tasks

  kept-IsRight : (e : String × AgentFile) → IsKept e → IsRight e.1
  kept-IsRight (name, a) (named, claims, completed) = record {
    claims =
        All-mono
          (λ id h. retained_right a id (ap (λ n. is_retained active scope cards n id) named ∙ h))
          a.claimed_tasks claims;
    completed = All-mono completed_right a.completed_tasks completed;
  }

-- In the files behind a repair, every claim on a task in the scope is on a card that is ready, in doing
-- or in review and that no one else owns, or on a card that is not there, by an agent that was active;
-- and every completed task in the scope whose card is there is done.
pub repaired-IsRight :
    (active : String → Bool) (scope : Option (List String)) (cards : List Card)
    (agents : List AgentFile)
    → All
        (λ e. IsRight active scope (cards_by_id [] cards) e.1)
        (repaired active scope (cards_by_id [] cards) (agents_by_name [] agents))
unfolding repaired
repaired-IsRight active scope cards agents =
    All-mono (kept-IsRight active scope (cards_by_id [] cards)) _ (
      repair_cards-IsKept active scope (cards_by_id [] cards) _ _
        (repair_agents-IsKept active scope (cards_by_id [] cards) (agents_by_name [] agents)
          (agents_by_name-named [] agents tt))
        (scoped-found scope cards))
