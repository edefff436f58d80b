-- ===== src/Board/Grid.antt =====
-- src/skcoord/card.py: `KanbanBoard.grid` and `KanbanBoard.wip_report`, on the cards of the board.
use skcoord.Prelude.{
  ℕ, zero, suc, String, Bool, false, Option, none, some, get_or, List, [], ◌∷◌, foldl, ◌==◌, ltb, ℤ,
  pos, contains, append_one, look_up, sort_by, ordered_text, ordered_number, ordered_integer,
  ordered_tuple, if◌then◌else◌,
}
use skcoord.Card.Model.{Card, column_value}

abbrev pub column_order : List String
column_order = "backlog" ∷ "ready" ∷ "doing" ∷ "review" ∷ "done" ∷ []

abbrev pub lane_order : List String
lane_order = "feature" ∷ "bug" ∷ "security" ∷ "expedite" ∷ "change" ∷ "problem" ∷ "proposed" ∷ []

-- d[key] = change(d[key]) of a key that is there
unfoldable pub change_at {ℓ} :
    {V : Type ℓ} → String → (V → V) → List (String × V) → List (String × V)
change_at key change [] = []
change_at key change ((k, v) ∷ d) =
    let rest = change_at key change d in if k == key then (k, change v) ∷ d else (k, v) ∷ rest

abbrev pub Row : Type 0
Row = List (String × List Card)

-- {key: value for key in keys}
unfoldable pub filled : {V : Type 0} → V → List String → List (String × V)
filled value [] = []
filled value (key ∷ keys) = (key, value) ∷ filled value keys

abbrev pub lane_of : Card → String
lane_of c = if contains c.swimlane lane_order then c.swimlane else "feature"

unfoldable pub add_card : List (String × Row) → Card → List (String × Row)
add_card grid c =
    change_at (lane_of c) (change_at (column_value c.status) (λ cards. append_one cards c)) grid

-- c.order if c.order else 9999
abbrev pub place : ℤ → ℤ
place (pos zero) = pos 9999
place n = n

abbrev pub priority_rank : String → ℕ
priority_rank p =
    if p == "critical" then 0 else if p == "high" then 1 else if p == "low" then 3 else 2

abbrev pub grid_key : Card → ℤ × (ℕ × String)
grid_key c = (place c.order, (priority_rank c.priority, c.id))

-- Each value of a dict, changed.
unfoldable pub on_values : {V W : Type 0} → (V → W) → List (String × V) → List (String × W)
on_values change [] = []
on_values change ((k, v) ∷ d) = (k, change v) ∷ on_values change d

unfoldable pub grid : List Card → List (String × Row)
grid cards =
    on_values (on_values (sort_by grid_key))
      (foldl add_card (filled (filled [] column_order) lane_order) cards)

abbrev pub count_card : List (String × ℕ) → Card → List (String × ℕ)
count_card counts c =
    if c.swimlane == "expedite" then counts else change_at (column_value c.status) suc counts

abbrev pub limit_of : String → Option ℕ
limit_of column =
    if column == "ready"
    then some 8
    else if column == "doing"
    then some 6
    else if column == "review"
    then some 4
    else none

pub record Wip : Type 0 where
  pub count : ℕ
  pub limit : Option ℕ
  pub over : Bool

abbrev pub exceeds : ℕ → Option ℕ → Bool
exceeds count none = false
exceeds count (some limit) = ltb limit count

unfoldable pub report_of : List (String × ℕ) → List String → List (String × Wip)
report_of counts [] = []
report_of counts (column ∷ columns) =
    let count = get_or (look_up column counts) 0 in
    (
      column,
      record { count = count; limit = limit_of column; over = exceeds count (limit_of column) },
    )
    ∷ report_of counts columns

unfoldable pub wip_report : List Card → List (String × Wip)
wip_report cards = report_of (foldl count_card (filled 0 column_order) cards) column_order
