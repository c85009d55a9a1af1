-- ===== src/Portability/Tables.antt =====
-- crates/symbiotic-portability/src/table.rs.
-- A text is a list of code points. The csv crate is three parameters: whether a reader finds UTF-8 is
-- `is_utf8`; `headers` and `records` read, and `write` writes.
use symbiotic_foundation.Base.{
  byte_count, ℕ, suc, ◌+◌, ◌-◌, ◌*◌, ◌^◌, ◌/◌, ◌%◌, String, Bool, true, false, not, ◌&&◌, ◌||◌,
  Option, none, some, List, [], ◌∷◌, ◌++◌, map, any, all, contains, min, ltb, ◌==◌, nat_eq,
  string_eq, length, if◌then◌else◌, codes, is_white, is_empty,
}
use symbiotic_foundation.Portability.Model.{
  Limits, invalid_value, duplicate_identity, limit_exceeded,
}
use symbiotic_foundation.Portability.Checked.{Checked, ok, err, ◌>>=◌, ◌>>◌, refuse_if}

pub record Table : Type 0 where
  pub columns : List (List ℕ)
  pub rows : List (List (List ℕ))

pub record Presentation : Type 0 where
  pub bytes : List ℕ
  pub losses : List String

abbrev pub text_beq : List ℕ → List ℕ → Bool
text_beq [] [] = true
text_beq (c ∷ cs) (d ∷ ds) = c == d && text_beq cs ds
text_beq _ _ = false

-- How many different texts there are: the size of the set.
unfoldable pub set_size : List (List ℕ) → ℕ
set_size [] = 0
set_size (t ∷ ts) = if any (text_beq t) ts then set_size ts else suc (set_size ts)

abbrev pub usize_max : ℕ
usize_max = 2 ^ 64 - 1

-- `saturating_mul` and `saturating_add`
abbrev pub saturate : ℕ → ℕ
saturate n = min n usize_max

abbrev pub total_bytes : List (List ℕ) → ℕ
total_bytes [] = 0
total_bytes (t ∷ ts) = byte_count t + total_bytes ts

abbrev pub flatten : List (List (List ℕ)) → List (List ℕ)
flatten [] = []
flatten (row ∷ rows) = row ++ flatten rows

unfoldable pub validate_table : Table → Limits → Checked (Unit {0})
validate_table t limits =
    refuse_if (is_empty t.columns || any (all is_white) t.columns) invalid_value
    >> refuse_if (not (set_size t.columns == length t.columns)) duplicate_identity
    >> refuse_if
        (ltb limits.max_table_cells (saturate (length t.columns * saturate (length t.rows + 1))))
        limit_exceeded
    >> refuse_if (any (λ r. not (length r == length t.columns)) t.rows) invalid_value
    >> refuse_if (ltb limits.max_input_bytes (total_bytes (t.columns ++ flatten t.rows)))
        limit_exceeded

-- The loop over the records of the reader.
unfoldable pub collect_rows :
    Limits
    → ℕ
    → List (Option (List (List ℕ)))
    → List (List (List ℕ))
    → Checked (List (List (List ℕ)))
collect_rows limits width [] rows = ok rows
collect_rows limits width (none ∷ rest) rows = err invalid_value
collect_rows limits width (some row ∷ rest) rows =
    let more = rows ++ row ∷ [] in
    refuse_if (ltb limits.max_table_cells (saturate (width * (length more + 1)))) limit_exceeded
    >> collect_rows limits width rest more

abbrev pub or_invalid : {A : Type 0} → Option A → Checked A
or_invalid none = err invalid_value
or_invalid (some a) = ok a

unfoldable pub parse_csv :
    (List ℕ → Bool)
    → (List ℕ → Option (List (List ℕ)))
    → (List ℕ → List (Option (List (List ℕ))))
    → List ℕ
    → Limits
    → Checked Table
parse_csv is_utf8 headers records bytes limits =
    refuse_if (ltb limits.max_input_bytes (length bytes)) limit_exceeded
    >> refuse_if (not (is_utf8 bytes)) invalid_value
    >> (or_invalid (headers bytes) >>= λ columns.
        collect_rows limits (length columns) (records bytes) [] >>= λ rows.
        validate_table (record { columns = columns; rows = rows }) limits
        >> ok (record { columns = columns; rows = rows }))

abbrev pub trim_start : List ℕ → List ℕ
trim_start [] = []
trim_start (c ∷ cs) = if is_white c then trim_start cs else c ∷ cs

abbrev pub starts_with_any : List ℕ → List ℕ → Bool
starts_with_any cs [] = false
starts_with_any cs (d ∷ ds) = contains d cs

-- `=`, `+`, `-`, `@`; tab, carriage return, line feed.
unfoldable pub is_formula : List ℕ → Bool
is_formula value =
    starts_with_any (codes "=+-@") (trim_start value) || starts_with_any (9 ∷ 13 ∷ 10 ∷ []) value

unfoldable pub spreadsheet_text : List ℕ → List ℕ
spreadsheet_text value = if is_formula value then 39 ∷ value else value

abbrev pub formula_loss : String
formula_loss = "Formula-like cells were prefixed with an apostrophe for spreadsheet presentation."

abbrev pub changes_cell : List ℕ → Bool
changes_cell v = not (text_beq (spreadsheet_text v) v)

unfoldable pub render_csv :
    (List (List (List ℕ)) → Option (List ℕ)) → Table → Limits → Checked Presentation
render_csv write table limits =
    validate_table table limits
    >> (or_invalid (write (map (map spreadsheet_text) (table.columns ∷ table.rows))) >>= λ bytes.
        refuse_if (ltb limits.max_input_bytes (length bytes)) limit_exceeded
        >> ok (record {
          bytes = bytes;
          losses =
              if any (any changes_cell) (table.columns ∷ table.rows) then formula_loss ∷ [] else [];
        }))

-- `str::replace` of one character.
unfoldable pub replace : ℕ → List ℕ → List ℕ → List ℕ
replace c by [] = []
replace c by (d ∷ ds) = if d == c then by ++ replace c by ds else d ∷ replace c by ds

unfoldable pub escape : List ℕ → List ℕ
escape v0 =
    let v1 = replace 38 (codes "&amp;") v0 in
    let v2 = replace 60 (codes "&lt;") v1 in
    let v3 = replace 62 (codes "&gt;") v2 in
    let v4 = replace 92 (92 ∷ 92 ∷ []) v3 in
    let v5 = replace 124 (92 ∷ 124 ∷ []) v4 in
    let v6 = replace 42 (92 ∷ 42 ∷ []) v5 in
    let v7 = replace 95 (92 ∷ 95 ∷ []) v6 in
    let v8 = replace 96 (92 ∷ 96 ∷ []) v7 in
    let v9 = replace 91 (92 ∷ 91 ∷ []) v8 in
    let v10 = replace 93 (92 ∷ 93 ∷ []) v9 in
    let v11 = replace 13 [] v10 in replace 10 (codes "<br>") v11

unfoldable pub join : List ℕ → List (List ℕ) → List ℕ
join separator [] = []
join separator (t ∷ []) = t
join separator (t ∷ u ∷ ts) = t ++ separator ++ join separator (u ∷ ts)

-- One line of the table: `| a | b |`.
unfoldable pub row : List (List ℕ) → List ℕ
row values = codes "| " ++ join (codes " | ") (map escape values) ++ codes " |" ++ 10 ∷ []

unfoldable pub rows_text : List (List (List ℕ)) → List ℕ
rows_text [] = []
rows_text (r ∷ rs) = row r ++ rows_text rs

abbrev pub markdown_loss : String
markdown_loss =
    "Markdown table presentation carries string cells only; newlines and markup are escaped."

-- The bytes of a code point in UTF-8.
abbrev pub utf8 : ℕ → List ℕ
utf8 c =
    if ltb c 0x80
    then c ∷ []
    else if ltb c 0x800
    then (0xC0 + c / 64) ∷ (0x80 + c % 64) ∷ []
    else if ltb c 0x10000
    then (0xE0 + c / 4096) ∷ (0x80 + c / 64 % 64) ∷ (0x80 + c % 64) ∷ []
    else (0xF0 + c / 262144) ∷ (0x80 + c / 4096 % 64) ∷ (0x80 + c / 64 % 64) ∷ (0x80 + c % 64) ∷ []

unfoldable pub into_bytes : List ℕ → List ℕ
into_bytes [] = []
into_bytes (c ∷ cs) = utf8 c ++ into_bytes cs

unfoldable pub markdown_text : Table → List ℕ
markdown_text table =
    row table.columns ++ row (map (λ _. codes "---") table.columns) ++ rows_text table.rows

unfoldable pub render_markdown : Table → Limits → Checked Presentation
render_markdown table limits =
    validate_table table limits
    >> refuse_if (ltb limits.max_input_bytes (byte_count (markdown_text table))) limit_exceeded
    >> ok (record { bytes = into_bytes (markdown_text table); losses = markdown_loss ∷ [] })
