-- ===== src/Graph/Amend.antt =====
-- src/skcoord/card_store.py: `amend_dependency`, which checks a dependency before it appends the event
-- that adds or removes it.
use skcoord.Prelude.{
  String, ◌≡◌, ap, ◌⊎◌, inl, inr, Bool, true, false, not, ◌&&◌, ◌||◌, Option, none, some, get_or,
  List, [], ◌∷◌, foldl, arith, ◌==◌, contains, any_of, is_blank, or_else, put, Result, ok, err,
  value_error, if◌then◌else◌,
}
use skcoord.Card.Model.{Card}
use skcoord.Card.Event.{Event, bare}
use skcoord.Graph.Cycle.{would_create_cycle, add_edge}
use skcoord.Graph.Acyclic.{IsAcyclic, add_edge-IsAcyclic}

-- What the call reads: the folded cards of the store, archived ones included, and the ids of the tasks
-- of the coordination board.
pub record Home : Type 0 where
  pub cards : List Card
  pub tasks : List String

-- {card.id: list(card.dependencies) for card in cards}
abbrev pub edges_of : List Card → List (String × List String)
edges_of cards = foldl (λ edges (c : Card). put c.id c.dependencies edges) [] cards

-- _card_exists
abbrev pub card_exists : Home → String → Bool
card_exists h id = any_of (λ (c : Card). c.id == id) h.cards || contains id h.tasks

-- current_dependencies of a card, none of a task that the store does not have
abbrev pub dependencies_of : List Card → String → List String
dependencies_of [] id = []
dependencies_of (c ∷ cards) id = if c.id == id then c.dependencies else dependencies_of cards id

-- would_create_cycle, which always answers: the default is never read.
abbrev pub closes_cycle : Home → String → String → Bool
closes_cycle h card_id dependency_id =
    get_or (would_create_cycle (edges_of h.cards) card_id dependency_id) true

abbrev pub amendment : String → String → String → Event
amendment action agent dependency_id = record (bare action) {
  writer = some (or_else agent "coord");
  dependency = some dependency_id;
}

-- What is left of the call under the lock of the card: the event, or none where there is nothing to do.
unfoldable pub amend_locked : Home → String → String → String → String → Result (Option Event)
amend_locked h card_id dependency_id action agent =
    let present = contains dependency_id (dependencies_of h.cards card_id) in
    if ((action == "add_dependency" && present) || (action == "remove_dependency" && not present))
    then ok none
    else if (action == "add_dependency" && closes_cycle h card_id dependency_id)
    then err (value_error "the dependency would create a cycle")
    else ok (some (amendment action agent dependency_id))

unfoldable pub amend_dependency :
    Home → String → String → String → String → String → Result (Option Event)
unfolding amend_locked
amend_dependency h card_id dependency_id action agent reason =
    if (not (action == "add_dependency") && not (action == "remove_dependency"))
    then err (value_error "action must be add_dependency or remove_dependency")
    else if (card_id == "" || dependency_id == "")
    then err (value_error "card and dependency identifiers are required")
    else if card_id == dependency_id
    then err (value_error "a card cannot depend on itself")
    else if is_blank reason
    then err (value_error "a dependency amendment reason is required")
    else if not (card_exists h card_id)
    then err (value_error "card not found")
    else if not (card_exists h dependency_id)
    then err (value_error "dependency not found")
    else amend_locked h card_id dependency_id action agent

no_cycle : (o : Option Bool) → get_or o true ≡ false → o ≡ some false
no_cycle none h = cc
no_cycle (some b) h = ap some h

-- Where the folded cards have no cycle, an add_dependency that is appended leaves none: their edges with
-- the new one are acyclic. The event names the dependency, and it was not there before.
pub amend_dependency-IsAcyclic :
    (h : Home) (card_id dependency_id agent reason : String) {e : Event}
    → IsAcyclic (edges_of h.cards)
    → amend_dependency h card_id dependency_id "add_dependency" agent reason ≡ ok (some e)
    → IsAcyclic (add_edge (edges_of h.cards) card_id dependency_id)
      × (e.dependency ≡ some dependency_id)
      × (contains dependency_id (dependencies_of h.cards card_id) ≡ false)
unfolding amend_dependency amend_locked
amend_dependency-IsAcyclic h card_id dependency_id agent reason acyclic p = (
  add_edge-IsAcyclic (edges_of h.cards) card_id dependency_id acyclic
      (no_cycle (would_create_cycle (edges_of h.cards) card_id dependency_id) (ground arith)),
  ground arith,
  ground arith,
)

-- A repeated amendment appends nothing: with the dependency there already, or gone already, a call that
-- names two different known cards and gives a reason returns without an event.
pub amend_again :
    (h : Home) (card_id dependency_id action agent reason : String)
    → (card_id == "" || dependency_id == "") ≡ false
    → (card_id == dependency_id) ≡ false
    → is_blank reason ≡ false
    → (card_exists h card_id && card_exists h dependency_id) ≡ true
    → (action ≡ "add_dependency")
        × (contains dependency_id (dependencies_of h.cards card_id) ≡ true)
      ⊎ (action ≡ "remove_dependency")
        × (contains dependency_id (dependencies_of h.cards card_id) ≡ false)
    → amend_dependency h card_id dependency_id action agent reason ≡ ok none
unfolding amend_dependency amend_locked
amend_again h card_id dependency_id action agent reason named other said known (inl (add, there)) =
    rw (add, named, other, said) (ground arith)
amend_again h card_id dependency_id action agent reason named other said known
      (inr (remove, gone)) =
    rw (remove, named, other, said) (ground arith)
