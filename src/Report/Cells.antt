-- ===== src/Report/Cells.antt =====
-- What a reader of a CSV report finds in a cell.
use gdom.Base.{
  ◌∙◌, ℕ, ◌≡◌, refl, ap, sym, subst, Bool, true, false, ◌||◌, List, [], ◌∷◌, ◌++◌, ◌==◌,
  if◌then◌else◌, any, Option, none, some, arith, Bool-cases, inl, inr,
}
use gdom.Report.Csv.{
  quote, apostrophe, comma, line_feed, starts_formula, is_formula, double_quotes, is_special,
  csv_cell,
}

abbrev pub Cell : Type 0
Cell = Option (List ℕ × List ℕ)

abbrev prepend : ℕ → Cell → Cell
prepend c none = none
prepend c (some (cell, rest)) = some (c ∷ cell, rest)

-- A reader of CSV (RFC 4180), apart from the code that writes it. Inside quotes two quotes stand for
-- one, and one ends the cell: `closing` is right after a quote. A bare cell ends at a comma or a line
-- feed. It answers the cell and what follows it.
unfoldable pub read_quoted : Bool → List ℕ → Cell
read_quoted closing [] = if closing then some ([], []) else none
read_quoted closing (c ∷ cs) =
    let inside = read_quoted false cs in
    let after = read_quoted true cs in
    if closing
    then (if c == quote then prepend quote inside else some ([], c ∷ cs))
    else (if c == quote then after else prepend c inside)

abbrev pub ends_cell : ℕ → Bool
ends_cell c = c == comma || c == line_feed

unfoldable pub read_bare : List ℕ → Cell
read_bare [] = some ([], [])
read_bare (c ∷ cs) =
    let more = read_bare cs in if ends_cell c then some ([], c ∷ cs) else prepend c more

unfoldable pub read_cell : List ℕ → Cell
unfolding read_quoted read_bare
read_cell [] = some ([], [])
read_cell (c ∷ cs) = if c == quote then read_quoted false cs else read_bare (c ∷ cs)

-- The text that a spreadsheet takes as it stands: with an apostrophe before a formula.
abbrev pub neutral : List ℕ → List ℕ
neutral value = if is_formula value then apostrophe ∷ value else value

-- The end of a row, or a cell's separator.
abbrev pub is_boundary : List ℕ → Bool
is_boundary [] = true
is_boundary (c ∷ cs) = ends_cell c

read_quoted-double_quotes :
    (value rest : List ℕ)
    → is_boundary rest ≡ true
    → read_quoted false ((double_quotes value ++ quote ∷ []) ++ rest) ≡ some (value, rest)
unfolding read_quoted double_quotes
read_quoted-double_quotes [] [] b = refl
read_quoted-double_quotes [] (c ∷ rest) b = ground arith
read_quoted-double_quotes (c ∷ value) rest b = ground (arith, read_quoted-double_quotes value rest)

double_quotes-bare :
    (value : List ℕ) → any is_special (double_quotes value) ≡ false → double_quotes value ≡ value
unfolding double_quotes is_special
double_quotes-bare [] h = refl
double_quotes-bare (c ∷ value) h = ground (arith, double_quotes-bare value)

read_bare-append :
    (value rest : List ℕ)
    → any is_special value ≡ false
    → is_boundary rest ≡ true
    → read_bare (value ++ rest) ≡ some (value, rest)
unfolding read_bare is_special
read_bare-append [] [] h b = refl
read_bare-append [] (c ∷ rest) h b = ground arith
read_bare-append (c ∷ value) rest h b = ground (arith, read_bare-append value rest)

read_cell-bare :
    (value rest : List ℕ)
    → any is_special value ≡ false
    → is_boundary rest ≡ true
    → read_cell (value ++ rest) ≡ some (value, rest)
unfolding read_cell is_special
read_cell-bare [] [] h b = refl
read_cell-bare [] (c ∷ rest) h b = ground (arith, read_bare-append [] (c ∷ rest))
read_cell-bare (c ∷ value) rest h b = ground (arith, read_bare-append (c ∷ value) rest)

-- Before a separator or the end of the text, a CSV reader reads a written cell back to its text and
-- stops right after it, whatever quotes, commas and line breaks the text has; a text that a
-- spreadsheet would take for a formula is read with an apostrophe before it.
pub read_cell-csv_cell :
    (value rest : List ℕ)
    → is_boundary rest ≡ true
    → read_cell (csv_cell value ++ rest) ≡ some (neutral value, rest)
unfolding csv_cell read_cell
read_cell-csv_cell value rest b = elim (Bool-cases (is_formula value)) [
  | inl formula ↦ rw formula (ap (prepend apostrophe) (read_quoted-double_quotes value rest b))
  | inr plain ↦ elim (Bool-cases (any is_special (double_quotes value))) [
    | inl special ↦ rw (plain, special) (read_quoted-double_quotes value rest b)
    | inr bare ↦ rw (plain, bare) (written_bare bare)
  ]
]
  where
    written_bare :
        any is_special (double_quotes value) ≡ false
        → read_cell (double_quotes value ++ rest) ≡ some (value, rest)
    written_bare bare =
        let same = double_quotes-bare value bare in
        subst (λ cs. read_cell (cs ++ rest) ≡ some (value, rest)) (sym same)
          (read_cell-bare value rest (subst (λ cs. any is_special cs ≡ false) same bare) b)

-- The characters that make a spreadsheet take a text for a formula when it starts with them: = + - @,
-- the tab, the carriage return and the line feed.
abbrev pub formula_starts : List ℕ
formula_starts = 61 ∷ 43 ∷ 45 ∷ 64 ∷ 9 ∷ 13 ∷ 10 ∷ []

abbrev pub runs_as_formula : List ℕ → Bool
runs_as_formula [] = false
runs_as_formula (c ∷ cs) = any (λ start. c == start) formula_starts

neutral-runs_as_formula : (value : List ℕ) → runs_as_formula (neutral value) ≡ false
unfolding is_formula starts_formula
neutral-runs_as_formula [] = refl
neutral-runs_as_formula (c ∷ value) = ground arith

-- What a CSV reader reads from a written cell, before a separator or the end of the text, never runs as
-- a formula in a spreadsheet: whatever the cell's text is, the first character that is left after the
-- reader has taken the quotes off is none of = + - @, tab, carriage return and line feed.
pub csv_cell-runs_as_formula :
    (value rest cell after : List ℕ)
    → is_boundary rest ≡ true
    → read_cell (csv_cell value ++ rest) ≡ some (cell, after)
    → runs_as_formula cell ≡ false
csv_cell-runs_as_formula value rest cell after b read =
    let same = sym (read_cell-csv_cell value rest b) ∙ read in
    ground (arith, same, neutral-runs_as_formula value)
