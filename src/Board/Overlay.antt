-- ===== src/Board/Overlay.antt =====
-- src/skcoord/card.py: `CardEvent`, the overlay's event, and src/skcoord/card_store.py's translation
-- of it to an event of the card store.
use Prim.Native.Nat.{Ordering, compare as compare_seq}
use Prim.Native.String.{compare}
use skcoord.Prelude.{
  ℕ, ℤ, String, Bool, true, false, Option, none, some, get_or, List, [], ◌∷◌, ◌==◌, if◌then◌else◌,
}
use skcoord.Card.Event.{Event, bare}

pub record CardEvent : Type 0 where
  pub card_id : String
  pub action : String
  pub writer : String
  pub ts : String
  pub seq : ℕ
  pub column : Option String
  pub order : Option ℤ
  pub priority : Option String
  pub swimlane : Option String
  pub label : Option String
  pub link_key : Option String
  pub link_value : Option String
  pub owner : Option String
  pub title : Option String
  pub description : Option String

-- An event with its card and its action and no payload.
abbrev pub plain : String → String → CardEvent
plain card_id action = record {
  card_id = card_id;
  action = action;
  writer = "";
  ts = "";
  seq = 0;
  column = none;
  order = none;
  priority = none;
  swimlane = none;
  label = none;
  link_key = none;
  link_value = none;
  owner = none;
  title = none;
  description = none;
}

-- OVERLAY_ACTIONS, and any other text.
pub data Action : Type 0 where
  move set_priority set_swimlane add_label remove_label link assign unassign : Action
  describe verdict unsupported : Action

unfoldable pub action_of : String → Action
action_of a =
    if a == "move"
    then move
    else if a == "set_priority"
    then set_priority
    else if a == "set_swimlane"
    then set_swimlane
    else if a == "add_label"
    then add_label
    else if a == "remove_label"
    then remove_label
    else if a == "link"
    then link
    else if a == "assign"
    then assign
    else if a == "unassign"
    then unassign
    else if a == "describe"
    then describe
    else if a == "verdict"
    then verdict
    else unsupported

-- _OVERLAY_TO_STORE_ACTION
abbrev pub store_action : Action → Option String
store_action move = some "move"
store_action set_priority = some "priority"
store_action set_swimlane = some "swimlane"
store_action add_label = some "add_label"
store_action remove_label = some "remove_label"
store_action link = some "link"
store_action assign = some "assign"
store_action unassign = some "unassign"
store_action describe = some "describe"
store_action verdict = some "link"
store_action unsupported = none

-- The event that `load_legacy_mutations` makes of an overlay event, given the store's action. A key
-- that it leaves out reads as its default.
abbrev pub synthetic : String → CardEvent → Event
synthetic action e = record (bare action) {
  ts = some e.ts;
  writer = some e.writer;
  seq = e.seq;
  column = e.column;
  order = e.order;
  priority = get_or e.priority "";
  swimlane = get_or e.swimlane "";
  label = e.label;
  link_key = e.link_key;
  link_value = e.link_value;
  owner = e.owner;
  title = e.title;
  description = e.description;
}

unfoldable pub store_event : CardEvent → Option Event
unfolding action_of
store_event e = elim (store_action (action_of e.action)) [
  | none ↦ none
  | some action ↦ some (synthetic action e)
]

-- What `load_legacy_mutations` hands the fold of one card, of the events in the order read.
unfoldable pub legacy_events : String → List CardEvent → List Event
legacy_events id [] = []
legacy_events id (e ∷ events) =
    let rest = legacy_events id events in
    if e.card_id == id then elim (store_event e) [ none ↦ rest | some x ↦ x ∷ rest ] else rest

-- (e.ts, e.writer, e.seq) <= (f.ts, f.writer, f.seq)
abbrev pub by_seq : CardEvent → CardEvent → Bool
by_seq e f = elim (compare_seq e.seq f.seq) [ Ordering.gt ↦ false | _ ↦ true ]

abbrev pub by_writer : CardEvent → CardEvent → Bool
by_writer e f = elim (compare e.writer f.writer) [
  | Ordering.lt ↦ true
  | Ordering.eq ↦ by_seq e f
  | Ordering.gt ↦ false
]

unfoldable pub not_after : CardEvent → CardEvent → Bool
not_after e f = elim (compare e.ts f.ts) [
  | Ordering.lt ↦ true
  | Ordering.eq ↦ by_writer e f
  | Ordering.gt ↦ false
]

-- sorted(events, key=...): stable, so an event stands before those with its key that came later.
unfoldable pub insert : CardEvent → List CardEvent → List CardEvent
unfolding not_after
insert e [] = e ∷ []
insert e (f ∷ events) =
    let rest = insert e events in if not_after e f then e ∷ f ∷ events else f ∷ rest

unfoldable pub sorted : List CardEvent → List CardEvent
unfolding insert
sorted [] = []
sorted (e ∷ events) = insert e (sorted events)
