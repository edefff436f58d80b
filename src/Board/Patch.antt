-- ===== src/Board/Patch.antt =====
-- src/skcoord/card.py: `fold_overlay`, and `KanbanBoard.cards` where it applies a patch to a card.
use skcoord.Prelude.{
  ℤ, String, Bool, true, false, not, ◌&&◌, Option, none, some, get_or, List, [], ◌∷◌, foldl,
  contains, truthy, append_one, put, look_up, discard, is_set, if◌then◌else◌,
}
use skcoord.Card.Model.{Card}
use skcoord.Card.Claim.{column_or}
use skcoord.Board.Overlay.{
  CardEvent, Action, move, set_priority, set_swimlane, add_label, remove_label, link, assign,
  unassign, describe, verdict, unsupported, action_of, sorted,
}

pub record Patch : Type 0 where
  pub column : Option String
  pub order : Option ℤ
  pub priority : Option String
  pub swimlane : Option String
  pub labels : List String
  pub links : List (String × Option String)
  pub owner : Option String
  pub owner_set : Bool
  pub title : Option String
  pub description : Option String

abbrev pub blank : Patch
blank = record {
  column = none;
  order = none;
  priority = none;
  swimlane = none;
  labels = [];
  links = [];
  owner = none;
  owner_set = false;
  title = none;
  description = none;
}

-- if value is not None: field = value
abbrev pub newest {ℓ} : {A : Type ℓ} → Option A → Option A → Option A
newest none old = old
newest (some a) old = some a

-- if label and label not in labels: labels.append(label)
abbrev pub with_label : Option String → List String → List String
with_label none labels = labels
with_label (some label) labels =
    if (truthy label && not (contains label labels)) then append_one labels label else labels

abbrev pub without_label : Option String → List String → List String
without_label none labels = labels
without_label (some label) labels = discard label labels

abbrev pub with_link :
    Option String → Option String → List (String × Option String) → List (String × Option String)
with_link none value links = links
with_link (some key) value links = put key value links

-- One branch of the chain on `action`.
unfoldable pub patch_action : Action → Patch → CardEvent → Patch
patch_action move p e = record p {
  column = newest e.column p.column;
  order = newest e.order p.order;
}
patch_action set_priority p e = record p { priority = newest e.priority p.priority }
patch_action set_swimlane p e = record p { swimlane = newest e.swimlane p.swimlane }
patch_action add_label p e = record p { labels = with_label e.label p.labels }
patch_action remove_label p e = record p { labels = without_label e.label p.labels }
patch_action link p e = record p { links = with_link e.link_key e.link_value p.links }
patch_action assign p e = record p {
  owner = if is_set e.owner then e.owner else p.owner;
  owner_set = if is_set e.owner then true else p.owner_set;
}
patch_action unassign p e = record p { owner = none; owner_set = true }
patch_action describe p e = record p {
  title = newest e.title p.title;
  description = newest e.description p.description;
}
patch_action verdict p e = p
patch_action unsupported p e = p

unfoldable pub patch_event : Patch → CardEvent → Patch
unfolding patch_action action_of
patch_event p e = patch_action (action_of e.action) p e

-- overlay.setdefault(e.card_id, {...}), and the branch on the patch that it returns
unfoldable pub overlay_event : List (String × Patch) → CardEvent → List (String × Patch)
overlay_event overlay e =
    put e.card_id (patch_event (get_or (look_up e.card_id overlay) blank) e) overlay

unfoldable pub fold_overlay : List CardEvent → List (String × Patch)
unfolding overlay_event sorted
fold_overlay events = foldl overlay_event [] (sorted events)

-- for lb in labels: if lb not in c.labels: c.labels.append(lb)
unfoldable pub add_labels : List String → List String → List String
add_labels old [] = old
add_labels old (l ∷ labels) = add_labels (if contains l old then old else append_one old l) labels

-- c.links.update(links)
unfoldable pub update_links :
    List (String × Option String) → List (String × Option String) → List (String × Option String)
update_links old [] = old
update_links old ((k, v) ∷ links) = update_links (put k v old) links

-- if value: field = value
abbrev pub if_set : Option String → String → String
if_set value old = if is_set value then get_or value old else old

-- The application of a patch to a card. A column that is no `Column` is passed over.
unfoldable pub apply_patch : Card → Patch → Card
unfolding add_labels update_links
apply_patch c p = record c {
  status = column_or p.column c.status;
  order = get_or p.order c.order;
  priority = if_set p.priority c.priority;
  swimlane = if_set p.swimlane c.swimlane;
  labels = add_labels c.labels p.labels;
  links = update_links c.links p.links;
  owner = if p.owner_set then p.owner else c.owner;
  title = get_or p.title c.title;
  description = get_or p.description c.description;
}

-- What the board makes of a card: its own void, no patch, or its patch.
unfoldable pub on_board : List (String × Patch) → Bool → Card → Card
unfolding apply_patch
on_board overlay true c = record c { archived = true; owner = none }
on_board overlay false c = elim (look_up c.id overlay) [ none ↦ c | some p ↦ apply_patch c p ]
