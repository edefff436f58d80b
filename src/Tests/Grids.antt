-- ===== src/Tests/Grids.antt =====
-- The board: the theorems on src/skcoord/card.py's `grid` and `wip_report` at concrete cards.
use skcoord.Prelude.{
  ◌≡◌, refl, false, some, ordered_tuple, ordered_integer, ordered_number, ordered_text, List, [],
  ◌∷◌, pos, keep_if, look_up, sort_by, insert_by, map,
}
use skcoord.Card.Model.{doing, Card}
use skcoord.Tests.Boards.{some_card}
use skcoord.Board.Grid.{grid_key, wip_report}
use skcoord.Board.Cells.{stands_in, wip_report-column}

-- Two cards in doing, one of them placed first by hand, and an expedite card in doing.
abbrev three_cards : List Card
three_cards =
    record some_card { status = doing }
    ∷ record some_card { id = "card-2"; status = doing; order = pos 1 }
    ∷ record some_card { id = "card-3"; status = doing; swimlane = "expedite" }
    ∷ []

placed_first :
    map (λ c. c.id) (sort_by grid_key (keep_if (stands_in "feature" "doing") three_cards))
    ≡ "card-2" ∷ "card-1" ∷ []
unfolding sort_by insert_by
placed_first = refl

three_cards_counted :
    look_up "doing" (wip_report three_cards)
    ≡ some (record { count = 2; limit = some 6; over = false })
three_cards_counted = wip_report-column "doing" three_cards refl
