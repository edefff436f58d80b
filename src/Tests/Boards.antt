-- ===== src/Tests/Boards.antt =====
-- The overlay: the theorems on src/skcoord/card.py's `fold_overlay` at concrete events.
use skcoord.Prelude.{pos, false, ◌≡◌, refl, none, some, List, [], ◌∷◌, ok, is_blank}
use skcoord.Card.Model.{backlog, parse_column, Meta, Card}
use skcoord.Card.Fold.{run}
use skcoord.Board.Overlay.{CardEvent, plain, action_of, legacy_events, sorted}
use skcoord.Board.Validate.{lacks_payload, has_reserved, validate_action, validate_overlay_event}
use skcoord.Board.Patch.{fold_overlay, on_board}
use skcoord.Board.Agreement.{Agrees, board_and_store}

abbrev pub some_card : Card
some_card = record {
  id = "card-1";
  kind = skcoord.Card.Model.Kind.task;
  title = "write the runbook";
  description = "";
  status = backlog;
  swimlane = "feature";
  priority = "medium";
  originator = "lumina";
  owner = none;
  order = pos 0;
  labels = [];
  acceptance_criteria = [];
  dependencies = [];
  links = [];
  meta = record {
    claim_revision = none;
    claim_conflicts = [];
    release_conflicts = [];
    comments = [];
    agent_run = none;
    voided = false;
    voided_at = none;
    voided_by = none;
    archived_at = none;
    archived_by = none;
  };
  archived = false;
  created_at = "2026-09-01T00:00:00+00:00";
  updated_at = "";
  source = "cards";
}

abbrev overlay_log : List CardEvent
overlay_log =
    record (plain "card-1" "move") { ts = "2"; column = some "review"; order = some (pos 3) }
    ∷ record (plain "card-1" "assign") { ts = "1"; owner = some "opus" }
    ∷ []

abbrev verdict_event : CardEvent
verdict_event = record (plain "card-1" "verdict") {
  link_key = some "verdict";
  link_value = some "approved";
}

board_and_store_example :
    (d : Card) × (run
        (record { card = some_card; voided = false })
        (legacy_events "card-1" (sorted overlay_log))
      ≡ ok (record { card = d; voided = false }))
    × Agrees (on_board (fold_overlay overlay_log) false some_card) d
unfolding validate_overlay_event validate_action lacks_payload has_reserved action_of is_blank
    parse_column
board_and_store_example = board_and_store some_card overlay_log ((refl, refl), ((refl, refl), tt))
