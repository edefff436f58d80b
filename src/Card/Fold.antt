-- ===== src/Card/Fold.antt =====
-- src/skcoord/card_store.py: `CardStore.fold`, its loop over the merged events and what comes before.
use skcoord.Prelude.{
  pos, String, Bool, true, false, not, ◌&&◌, ◌||◌, Option, none, some, get_or, List, [], ◌∷◌,
  contains, truthy, is_set, is_blank, any_of, append_one, put, discard, if◌then◌else◌, Result, ok,
  err, ◌>>=◌, key_error, value_error,
}
use skcoord.Card.Model.{Column, backlog, doing, kind_or_task, Meta, Card, Core}
use skcoord.Card.Event.{Event, Action, action_of, is_void_terminal}
use skcoord.Card.Claim.{
  apply_void, apply_move, apply_assign, apply_unassign, apply_complete, apply_release, apply_claim,
  apply_archive, apply_reopen,
}
use skcoord.Card.Runs.{apply_run_request, apply_run_claim, apply_run_activity, apply_run_state}

-- The variables of the loop.
pub record State : Type 0 where
  pub card : Card
  pub voided : Bool

-- if text and text not in texts: texts.append(text), of a key that may be absent
abbrev pub with_text : Option String → List String → List String
with_text none texts = texts
with_text (some text) texts =
    if (truthy text && not (contains text texts)) then append_one texts text else texts

-- if text in texts: texts.remove(text)
abbrev pub without_text : Option String → List String → List String
without_text none texts = texts
without_text (some text) texts = discard text texts

unfoldable pub apply_add_label : Card → Event → Card
apply_add_label c e = record c { labels = with_text e.label c.labels }

unfoldable pub apply_remove_label : Card → Event → Card
apply_remove_label c e = record c { labels = without_text e.label c.labels }

unfoldable pub apply_add_dependency : Card → Event → Card
apply_add_dependency c e = record c { dependencies = with_text e.dependency c.dependencies }

unfoldable pub apply_remove_dependency : Card → Event → Card
apply_remove_dependency c e = record c { dependencies = without_text e.dependency c.dependencies }

unfoldable pub apply_link : Card → Event → Card
apply_link c e = record c {
  links = elim e.link_key [ none ↦ c.links | some key ↦ put key e.link_value c.links ];
}

unfoldable pub apply_describe : Card → Event → Card
apply_describe c e = record c {
  title = get_or e.title c.title;
  description = get_or e.description c.description;
}

-- A criteria amendment is malformed unless it is a list of texts that are not blank, and not empty.
abbrev pub well_formed_criteria : Option (List String) → Bool
well_formed_criteria none = false
well_formed_criteria (some []) = false
well_formed_criteria (some (x ∷ xs)) = not (any_of is_blank (x ∷ xs))

unfoldable pub apply_criteria : Card → Event → Result Card
apply_criteria c e =
    if well_formed_criteria e.criteria
    then ok (record c { acceptance_criteria = get_or e.criteria [] })
    else err (value_error "criteria amendment is malformed")

unfoldable pub apply_note : Card → Event → Card
apply_note c e =
    if truthy e.text
    then record c {
      meta = record (c.meta) {
        comments =
            append_one c.meta.comments (record { ts = e.ts; writer = e.writer; text = e.text });
      };
    }
    else c

-- One branch of the chain on `action`.
unfoldable pub apply : Action → Card → Event → Result Card
unfolding apply_add_label apply_remove_label apply_add_dependency apply_remove_dependency apply_link
    apply_describe apply_criteria apply_note
apply Action.void c e = ok (apply_void c e)
apply Action.move c e = ok (apply_move c e)
apply Action.assign c e = ok (apply_assign c e)
apply Action.unassign c e = ok (apply_unassign c e)
apply Action.release_claim c e = ok (apply_release c e)
apply Action.claim c e = ok (apply_claim c e)
apply Action.complete c e = ok (apply_complete c e)
apply Action.priority c e =
    ok (record c { priority = if truthy e.priority then e.priority else c.priority })
apply Action.swimlane c e =
    ok (record c { swimlane = if truthy e.swimlane then e.swimlane else c.swimlane })
apply Action.add_label c e = ok (apply_add_label c e)
apply Action.remove_label c e = ok (apply_remove_label c e)
apply Action.link c e = ok (apply_link c e)
apply Action.describe c e = ok (apply_describe c e)
apply Action.amend_criteria c e = apply_criteria c e
apply Action.add_dependency c e = ok (apply_add_dependency c e)
apply Action.remove_dependency c e = ok (apply_remove_dependency c e)
apply Action.note c e = ok (apply_note c e)
apply Action.agent_run_request c e = ok (apply_run_request c e)
apply Action.agent_run_claim c e = ok (apply_run_claim c e)
apply Action.agent_run_activity c e = ok (apply_run_activity c e)
apply Action.agent_run_state c e = ok (apply_run_state c e)
apply Action.archive c e = ok (apply_archive c e)
apply Action.reopen c e = ok (apply_reopen c e)
apply Action.unknown c e = ok c

-- card.updated_at = e.get("ts", card.updated_at)
abbrev pub touch : Event → Card → Card
touch e c = record c { updated_at = get_or e.ts c.updated_at }

abbrev pub is_void : Action → Bool
is_void Action.void = true
is_void _ = false

-- One round of the loop, for an action of its event.
unfoldable pub advance : Action → State → Event → Result State
unfolding apply
advance a s e =
    if (s.voided && is_void_terminal a)
    then ok (record s { card = touch e s.card })
    else (apply a s.card e >>= λ c.
        ok (record { card = touch e c; voided = s.voided || is_void a }))

unfoldable pub step : State → Event → Result State
unfolding advance action_of
step s e = advance (action_of e.action) s e

unfoldable pub run : State → List Event → Result State
unfolding step
run s [] = ok s
run s (e ∷ events) = step s e >>= λ t. run t events

abbrev pub born : Core → String → Option String → Column → Meta → Card
born core id owner status m = record {
  id = id;
  kind = kind_or_task (get_or core.kind "task");
  title = core.title;
  description = core.description;
  status = status;
  swimlane = get_or core.initial_swimlane "feature";
  priority = get_or core.initial_priority "medium";
  originator = core.created_by;
  owner = owner;
  order = pos 0;
  labels = core.initial_labels;
  acceptance_criteria = core.acceptance_criteria;
  dependencies = core.dependencies;
  links = [];
  meta = m;
  archived = false;
  created_at = core.created_at;
  updated_at = "";
  source = "cards";
}

abbrev pub born_owned : Core → String → Option String → Result Card
born_owned core id none = ok (born core id none backlog core.meta)
born_owned core id (some owner) =
    if is_set core.initial_claim_revision
    then ok (
        born core id (some owner) doing
          (record (core.meta) { claim_revision = core.initial_claim_revision }))
    else err (value_error "an owner without a claim revision")

-- The card at birth. `core["id"]` may raise, and an owner without a claim revision is refused.
unfoldable pub birth : Core → Result Card
birth core = elim core.id [
  | none ↦ err (key_error "id")
  | some id ↦ born_owned core id core.initial_owner
]

unfoldable pub fold_events : Core → List Event → Result State
unfolding birth run
fold_events core events = birth core >>= λ c. run (record { card = c; voided = false }) events
