-- ===== src/Report/Csv.antt =====
-- src-tauri/src/application/preflight.rs: a cell of a CSV report. A text is the list of its code
-- points, which a `String` is in Rust as well as here.
use gdom.Base.{ℕ, Bool, false, ◌||◌, List, [], ◌∷◌, ◌++◌, ◌==◌, if◌then◌else◌, any}

-- `"`, `'`, `,`, line feed and carriage return.
abbrev pub quote : ℕ
quote = 34

abbrev pub apostrophe : ℕ
apostrophe = 39

abbrev pub comma : ℕ
comma = 44

abbrev pub line_feed : ℕ
line_feed = 10

abbrev pub carriage_return : ℕ
carriage_return = 13

-- `matches!(first, '=' | '+' | '-' | '@' | '\t' | '\r' | '\n')`.
unfoldable pub starts_formula : ℕ → Bool
starts_formula c =
    c == 61
    || (c == 43 || (c == 45 || (c == 64 || (c == 9 || (c == carriage_return || c == line_feed)))))

unfoldable pub is_formula : List ℕ → Bool
unfolding starts_formula
is_formula [] = false
is_formula (c ∷ cs) = starts_formula c

-- `value.replace('"', "\"\"")`.
unfoldable pub double_quotes : List ℕ → List ℕ
double_quotes [] = []
double_quotes (c ∷ cs) =
    let rest = double_quotes cs in if c == quote then quote ∷ (quote ∷ rest) else c ∷ rest

-- `['"', ',', '\n', '\r']`.
unfoldable pub is_special : ℕ → Bool
is_special c = c == quote || (c == comma || (c == line_feed || c == carriage_return))

abbrev pub quoted : List ℕ → List ℕ
quoted cs = quote ∷ (cs ++ quote ∷ [])

unfoldable pub csv_cell : List ℕ → List ℕ
unfolding is_formula double_quotes is_special
csv_cell value =
    if is_formula value
    then quoted (apostrophe ∷ double_quotes value)
    else if any is_special (double_quotes value)
    then quoted (double_quotes value)
    else double_quotes value
