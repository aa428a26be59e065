-- ===== src/Report/Tests.antt =====
-- A report of two items.
use gdom.Base.{ℕ, ◌≡◌, List, [], ◌∷◌, none, some, pos, false, refl, ◌++◌}
use gdom.Item.State.{ItemState}
use gdom.Report.Counts.{FinalReportItem}
use gdom.Report.Csv.{csv_cell, is_formula, starts_formula, is_special, double_quotes}
use gdom.Report.Cells.{
  runs_as_formula, read_cell, neutral, read_cell-csv_cell, csv_cell-runs_as_formula,
}

abbrev item : ItemState → FinalReportItem
item state = record {
  file_id = "f";
  name = "Report";
  mime_type = "text/plain";
  depth = pos 0;
  quota_bytes_used = none;
  original_parent_ids = [];
  state = state;
  error_code = none;
  error_reason = none;
  error_message = none;
  transferred_at = none;
  verified_at = none;
}

abbrev items : List FinalReportItem
items = item ItemState.verified ∷ (item ItemState.accepting ∷ [])

-- The text `=1,2` before a comma.
read_cell-csv_cell_example :
    read_cell (csv_cell (61 ∷ (49 ∷ (44 ∷ (50 ∷ [])))) ++ 44 ∷ [])
    ≡ some (neutral (61 ∷ (49 ∷ (44 ∷ (50 ∷ [])))), 44 ∷ [])
read_cell-csv_cell_example = read_cell-csv_cell (61 ∷ (49 ∷ (44 ∷ (50 ∷ [])))) (44 ∷ []) refl

abbrev cell_read : List ℕ
cell_read = 39 ∷ (61 ∷ (49 ∷ (44 ∷ (50 ∷ []))))

read_back :
    read_cell (csv_cell (61 ∷ (49 ∷ (44 ∷ (50 ∷ [])))) ++ 44 ∷ []) ≡ some (cell_read, 44 ∷ [])
unfolding read_cell csv_cell is_formula starts_formula is_special double_quotes
read_back = refl

-- It is read back as no formula.
csv_cell-runs_as_formula_example : runs_as_formula cell_read ≡ false
csv_cell-runs_as_formula_example =
    csv_cell-runs_as_formula (61 ∷ (49 ∷ (44 ∷ (50 ∷ [])))) (44 ∷ []) cell_read (44 ∷ []) refl
      read_back
