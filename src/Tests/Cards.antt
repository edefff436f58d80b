-- ===== src/Tests/Cards.antt =====
-- Cards: the theorems on src/skcoord/card_store.py's `CardStore.fold` at concrete logs.
use skcoord.Prelude.{
  IsDistinct, String, Bool, true, false, ◌≡◌, refl, Option, none, some, List, [], ◌∷◌, ◌&&◌, arith,
  contains, is_some, is_set, is_ok, all_of, Result, ok, if◌then◌else◌,
}
use skcoord.Card.Model.{Column, backlog, doing, kind_or_task, Meta, Card, Core}
use skcoord.Card.Event.{Event, bare, action_of}
use skcoord.Card.Claim.{apply_claim, apply_release, apply_void}
use skcoord.Card.Fold.{State, apply, apply_add_label, advance, step, run, fold_events}
use skcoord.Card.Void.{IsVoided, void_is_terminal}
use skcoord.Card.Release.{current_claim_precondition}
use skcoord.Card.Races.{lost, Effective, first_claim_wins, release_takes_effect}
use skcoord.Card.Totality.{is_applicable, owner_backed, fold_events-is_ok}

abbrev no_meta : Meta
no_meta = record {
  claim_revision = none;
  claim_conflicts = [];
  release_conflicts = [];
  comments = [];
  agent_run = none;
  voided = false;
  voided_at = none;
  voided_by = none;
  archived_at = none;
  archived_by = none;
}

abbrev task_core : Core
task_core = record {
  id = some "card-1";
  kind = some "task";
  title = "write the runbook";
  description = "";
  created_by = "lumina";
  created_at = "2026-09-01T00:00:00+00:00";
  acceptance_criteria = [];
  dependencies = [];
  initial_priority = none;
  initial_swimlane = none;
  initial_labels = "docs" ∷ [];
  initial_owner = none;
  initial_claim_revision = none;
  meta = no_meta;
}

abbrev claim_by : String → String → Event
claim_by agent revision = record (bare "claim") {
  owner = some agent;
  claim_revision = some revision;
  event_id = some revision;
  writer = some agent;
}

abbrev assign_to : String → Event
assign_to agent = record (bare "assign") { owner = some agent }

abbrev release_of : String → String → Event
release_of agent revision = record (bare "release_claim") {
  released_owner = some agent;
  expected_claim_revision = some revision;
}

-- The card at birth, and after two claims.
abbrev fresh_card : Card
fresh_card = record {
  id = "card-1";
  kind = skcoord.Card.Model.Kind.task;
  title = "write the runbook";
  description = "";
  status = backlog;
  swimlane = "feature";
  priority = "medium";
  originator = "lumina";
  owner = none;
  order = skcoord.Prelude.pos 0;
  labels = "docs" ∷ [];
  acceptance_criteria = [];
  dependencies = [];
  links = [];
  meta = no_meta;
  archived = false;
  created_at = "2026-09-01T00:00:00+00:00";
  updated_at = "";
  source = "cards";
}

abbrev raced_card : Card
raced_card = apply_claim (apply_claim fresh_card (claim_by "opus" "r1")) (claim_by "chef" "r2")

abbrev fresh_state : State
fresh_state = record { card = fresh_card; voided = false }

abbrev card_log : List Event
card_log = claim_by "opus" "r1" ∷ bare "void" ∷ assign_to "chef" ∷ []

first_claim_wins_example :
    (raced_card.owner ≡ some "opus")
    × (raced_card.status ≡ doing)
    × (raced_card.meta.claim_revision ≡ some "r1")
    × (raced_card.meta.claim_conflicts
        ≡ lost
            (apply_claim fresh_card (claim_by "opus" "r1"))
            (claim_by "chef" "r2")
            "chef"
            (some "opus")
          ∷ [])
first_claim_wins_example =
    first_claim_wins fresh_card (claim_by "opus" "r1") (claim_by "chef" "r2") "opus" "chef"
      (record {
        free = refl;
        waiting = refl;
        named = refl;
        rival = refl;
        named_set = refl;
        rival_set = refl;
        distinct = refl;
      })

release_takes_effect_example :
    Effective raced_card (apply_release raced_card (release_of "chef" "r2")) "chef"
unfolding apply_claim current_claim_precondition
release_takes_effect_example =
    release_takes_effect raced_card [] (release_of "chef" "r2") "chef" "r2" refl refl
      (record { names_owner = refl; names_revision = refl })

abbrev voided_state : State
voided_state = record { card = apply_void fresh_card (bare "void"); voided = true }

void_is_terminal_example :
    (voided_state.voided ≡ true) × IsVoided voided_state.card × (voided_state.card.status ≡ backlog)
unfolding step advance action_of apply run apply_void
void_is_terminal_example =
    void_is_terminal fresh_state (bare "void") (assign_to "chef" ∷ []) {u = voided_state}
      {t = voided_state} refl refl refl

abbrev label_event : String → Event
label_event name = record (bare "add_label") { label = some name }

abbrev labelled_state : State
labelled_state = record { card = apply_add_label fresh_card (label_event "ops"); voided = false }

fold_events-is_ok_example : is_ok (fold_events task_core card_log) ≡ (
    is_some task_core.id
    && owner_backed task_core.initial_owner task_core.initial_claim_revision
    && all_of (λ e. is_applicable (action_of e.action) e) card_log)
fold_events-is_ok_example = fold_events-is_ok task_core card_log
