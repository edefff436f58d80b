-- ===== src/Board/Cells.antt =====
-- src/skcoord/card.py: what stands in a cell of the board, and what its report counts.
use skcoord.Prelude.{
  ℕ, suc, ◌+◌, String, ◌≡◌, refl, ap, ◌∙◌, inl, inr, Bool, true, not, ◌&&◌, Option, none, some,
  get_or, List, [], ◌∷◌, foldl, arith, ◌==◌, eq_iff, contains, keep_if, length, look_up, Bool-cases,
  ordered_text, ordered_number, ordered_integer, ordered_tuple, if◌then◌else◌,
}
use skcoord.Card.Model.{Card, column_value}
use skcoord.Board.Grid.{
  column_order, change_at, filled, lane_of, count_card, limit_of, exceeds, report_of, wip_report,
}

-- The card's lane and column.
abbrev pub stands_in : String → String → Card → Bool
stands_in lane column c = lane_of c == lane && column_value c.status == column

abbrev pub lift : {V W : Type 0} → (V → W) → Option V → Option W
lift f none = none
lift f (some v) = some (f v)

look_up-change_at :
    {V : Type 0} (key other : String) (change : V → V) (d : List (String × V))
    → look_up other (change_at key change d)
      ≡ (if key == other then lift change (look_up other d) else look_up other d)
unfolding look_up change_at
look_up-change_at key other change [] = ground arith
look_up-change_at key other change ((k, v) ∷ d) =
    ground
      (arith, look_up-change_at key other change d, eq_iff k key, eq_iff key other, eq_iff k other)

look_up-filled :
    {V : Type 0} (key : String) (v : V) (keys : List String)
    → contains key keys ≡ true
    → look_up key (filled v keys) ≡ some v
unfolding look_up filled
look_up-filled key v [] h = cc
look_up-filled key v (k ∷ keys) h = elim (Bool-cases (k == key)) [
  | inl same ↦ rw same refl
  | inr other ↦ rw other (look_up-filled key v keys (ground (arith, eq_iff key k, eq_iff k key)))
]

abbrev pub row_cell : {A : Type 0} → String → Option (List (String × A)) → Option A
row_cell column none = none
row_cell column (some row) = look_up column row

-- grid[lane][column], where there is such a cell
abbrev pub cell : {A : Type 0} → String → String → List (String × List (String × A)) → Option A
cell lane column g = row_cell column (look_up lane g)

-- The cards that a column's limit is about: those outside of the expedite lane.
abbrev pub is_counted : String → Card → Bool
is_counted column c = not (c.swimlane == "expedite") && column_value c.status == column

foldl-count :
    (column : String) (l : List Card) (counts : List (String × ℕ)) (n : ℕ)
    → look_up column counts ≡ some n
    → look_up column (foldl count_card counts l) ≡ some (n + length (keep_if (is_counted column) l))
foldl-count column [] counts n h = h ∙ ap some (omega arith)
foldl-count column (c ∷ l) counts n h = elim (Bool-cases (c.swimlane == "expedite")) [
  | inl bypasses ↦ rw bypasses (foldl-count column l counts n h)
  | inr counted ↦ elim (Bool-cases (column_value c.status == column)) [
    | inl here ↦
        rw (counted, here)
          (foldl-count column l (change_at (column_value c.status) suc counts) (suc n)
              (look_up-change_at (column_value c.status) column suc counts ∙ rw (here, h) refl)
            ∙ ap some (omega arith))
    | inr elsewhere ↦
        rw (counted, elsewhere)
          (foldl-count column l (change_at (column_value c.status) suc counts) n
            (look_up-change_at (column_value c.status) column suc counts ∙ rw (elsewhere, h) refl))
  ]
]

look_up-report :
    (column : String) (counts : List (String × ℕ)) (columns : List String)
    → contains column columns ≡ true
    → look_up column (report_of counts columns)
      ≡ some (record {
        count = get_or (look_up column counts) 0;
        limit = limit_of column;
        over = exceeds (get_or (look_up column counts) 0) (limit_of column);
      })
unfolding look_up report_of
look_up-report column counts [] h = cc
look_up-report column counts (k ∷ columns) h = elim (Bool-cases (k == column)) [
  | inl same ↦ rw (same, (eq_iff k column).0 same) refl
  | inr other ↦
      rw other
        (look_up-report column counts columns (ground (arith, eq_iff column k, eq_iff k column)))
]

-- The report counts in each column the cards outside of the expedite lane, and says that the column is
-- over where it has a limit and they are more.
pub wip_report-column :
    (column : String) (cards : List Card)
    → contains column column_order ≡ true
    → look_up column (wip_report cards)
      ≡ some (record {
        count = length (keep_if (is_counted column) cards);
        limit = limit_of column;
        over = exceeds (length (keep_if (is_counted column) cards)) (limit_of column);
      })
unfolding wip_report
wip_report-column column cards h =
    look_up-report column (foldl count_card (filled 0 column_order) cards) column_order h
    ∙ ap
        (λ o. some (record {
          count = get_or o 0;
          limit = limit_of column;
          over = exceeds (get_or o 0) (limit_of column);
        }))
        (foldl-count column cards (filled 0 column_order) 0 (look_up-filled column 0 column_order h)
          ∙ ap some (omega arith))
