-- ===== src/Portability/Presentations.antt =====
-- What the tables of crates/symbiotic-portability/src/table.rs satisfy once they are accepted, and
-- what their presentations do to the cells.
use symbiotic_foundation.Base.{
  ℕ, ◌+◌, ◌*◌, Bool, true, false, not, ◌&&◌, ◌||◌, ◌⊎◌, Option, List, [], ◌∷◌, ◌++◌, map, any, all,
  contains, All, ◌==◌, nat_eq, nat_beq_iff, length, if◌then◌else◌, codes, is_white, is_empty, ◌≡◌,
  ◌≤◌, refl, ap, arith, Bool-cases, Option-cases, inl, inr,
}
use symbiotic_foundation.Portability.Model.{Limits}
use symbiotic_foundation.Portability.Checked.{ok, ◌>>◌, Checked-cases}
use symbiotic_foundation.Portability.Tables.{
  Table, text_beq, set_size, saturate, validate_table, collect_rows, parse_csv, trim_start,
  starts_with_any, is_formula, spreadsheet_text, replace, escape, join, row, rows_text,
  markdown_text,
}

-- No text occurs twice.
abbrev pub all_different : List (List ℕ) → Bool
all_different [] = true
all_different (t ∷ ts) = not (any (text_beq t) ts) && all_different ts

set_size-le : (ts : List (List ℕ)) → set_size ts ≤ length ts
unfolding set_size
set_size-le [] = omega arith
set_size-le (t ∷ ts) = ground (arith, set_size-le ts)

set_size-all_different : (ts : List (List ℕ)) → set_size ts ≡ length ts → all_different ts ≡ true
unfolding set_size
set_size-all_different [] h = refl
set_size-all_different (t ∷ ts) h = ground (arith, set_size-le ts, set_size-all_different ts)

-- The columns have names, all different, and each row has a cell for each of them.
pub record IsRegular (limits : Limits) (t : Table) : Type 0 where
  pub columns : is_empty t.columns ≡ false
  pub named : any (all is_white) t.columns ≡ false
  pub different : all_different t.columns ≡ true
  pub rectangular : All (λ (r : List (List ℕ)). length r ≡ length t.columns) t.rows
  pub cells : saturate (length t.columns * saturate (length t.rows + 1)) ≤ limits.max_table_cells

rectangular_rows :
    (width : ℕ) (rows : List (List (List ℕ)))
    → any (λ (r : List (List ℕ)). not (length r == width)) rows ≡ false
    → All (λ (r : List (List ℕ)). length r ≡ width) rows
rectangular_rows width [] h = tt
rectangular_rows width (r ∷ rows) h = (ground arith, rectangular_rows width rows (ground arith))

pub validate_table-IsRegular :
    (t : Table) (limits : Limits) → validate_table t limits ≡ ok tt → IsRegular limits t
unfolding validate_table
validate_table-IsRegular t limits h = record {
  columns = ground arith;
  named = ground arith;
  different = set_size-all_different t.columns (ground arith);
  rectangular = rectangular_rows (length t.columns) t.rows (ground arith);
  cells = ground arith;
}

validated :
    (t u : Table) (limits : Limits) → (validate_table t limits >> ok t) ≡ ok u → IsRegular limits u
validated t u limits h = elim (Checked-cases (validate_table t limits)) [
  | inl (e, v) ↦ absurd (ground arith)
  | inr (k, v) ↦
      let same : t ≡ u = ground arith in
      rw same at (validate_table-IsRegular t limits (ground arith))
]

-- Whatever the CSV reader finds, a table that `parse_csv` answers with has at least one column, column
-- names that are not blank and all different, rows of exactly that width, and no more cells than the
-- limit.
pub parse_csv-IsRegular :
    (is_utf8 : List ℕ → Bool) (headers : List ℕ → Option (List (List ℕ)))
    (records : List ℕ → List (Option (List (List ℕ)))) (bytes : List ℕ) (limits : Limits)
    (t : Table)
    → parse_csv is_utf8 headers records bytes limits ≡ ok t
    → IsRegular limits t
unfolding parse_csv
parse_csv-IsRegular is_utf8 headers records bytes limits t h = elim (Option-cases (headers bytes)) [
  | inl a ↦ absurd (ground arith)
  | inr (columns, a) ↦
      elim (Checked-cases (collect_rows limits (length columns) (records bytes) [])) [
        | inl (e, c) ↦ absurd (ground arith)
        | inr (rows, c) ↦
            validated (record { columns = columns; rows = rows }) t limits (ground arith)
      ]
]

-- `=`, `+`, `-` or `@`.
abbrev pub is_operator : ℕ → Bool
is_operator c = c == 0x3D || c == 0x2B || c == 0x2D || c == 0x40

-- Tab, line feed or carriage return.
abbrev pub is_break : ℕ → Bool
is_break c = c == 9 || c == 10 || c == 13

-- An operator follows white space, or a break comes first.
pub data ReadsAsFormula (text : List ℕ) : Type 0 where
  calculates :
      (before rest : List ℕ) (c : ℕ)
      → all is_white before ≡ true
      → is_operator c ≡ true
      → text ≡ before ++ c ∷ rest
      → ReadsAsFormula text
  breaks : (rest : List ℕ) (c : ℕ) → is_break c ≡ true → text ≡ c ∷ rest → ReadsAsFormula text

is_operator-cases :
    (c : ℕ) → is_operator c ≡ true → (c ≡ 0x3D) ⊎ (c ≡ 0x2B) ⊎ (c ≡ 0x2D) ⊎ (c ≡ 0x40)
is_operator-cases c o = elim (Bool-cases (c == 0x3D)) [
  | inl e ↦ inl (ground (arith, nat_beq_iff c 0x3D))
  | inr a ↦ elim (Bool-cases (c == 0x2B)) [
    | inl e ↦ inr (inl (ground (arith, nat_beq_iff c 0x2B)))
    | inr b ↦ elim (Bool-cases (c == 0x2D)) [
      | inl e ↦ inr (inr (inl (ground (arith, nat_beq_iff c 0x2D))))
      | inr d ↦ inr (inr (inr (ground (arith, nat_beq_iff c 0x40))))
    ]
  ]
]

black_operator : (c : ℕ) → is_operator c ≡ true → is_white c ≡ false
unfolding is_white
black_operator c o = elim (is_operator-cases c o) [
  | inl e ↦ rw e refl
  | inr (inl e) ↦ rw e refl
  | inr (inr (inl e)) ↦ rw e refl
  | inr (inr (inr e)) ↦ rw e refl
]

known_operator : (c : ℕ) → is_operator c ≡ true → contains c (codes "=+-@") ≡ true
known_operator c o = elim (is_operator-cases c o) [
  | inl e ↦ rw e refl
  | inr (inl e) ↦ rw e refl
  | inr (inr (inl e)) ↦ rw e refl
  | inr (inr (inr e)) ↦ rw e refl
]

trim_start-operator :
    (before rest : List ℕ) (c : ℕ)
    → all is_white before ≡ true
    → is_operator c ≡ true
    → starts_with_any (codes "=+-@") (trim_start (before ++ c ∷ rest)) ≡ true
trim_start-operator [] rest c w o = rw (black_operator c o) (known_operator c o)
trim_start-operator (b ∷ before) rest c w o =
    let (b_white, white) : (is_white b ≡ true) × (all is_white before ≡ true) =
      (ground arith, ground arith) in
    rw b_white (trim_start-operator before rest c white o)

ReadsAsFormula-is_formula : (text : List ℕ) → ReadsAsFormula text → is_formula text ≡ true
unfolding is_formula
ReadsAsFormula-is_formula text (calculates before rest c w o e) =
    rw e (rw (trim_start-operator before rest c w o) refl)
ReadsAsFormula-is_formula text (breaks rest c b e) = rw e (ground arith)

operator_found :
    (text : List ℕ)
    → starts_with_any (codes "=+-@") (trim_start text) ≡ true
    → (before : List ℕ) × (rest : List ℕ) × (c : ℕ) × (all is_white before ≡ true)
      × (is_operator c ≡ true)
      × (text ≡ before ++ c ∷ rest)
operator_found [] h = absurd (ground arith)
operator_found (d ∷ text) h = elim (Bool-cases (is_white d)) [
  | inl w ↦
      let (before, rest, c, ws, o, e) = operator_found text (ground arith) in
      (d ∷ before, rest, c, ground arith, o, ap (λ t. d ∷ t) e)
  | inr w ↦ ([], text, d, refl, ground arith, refl)
]

is_formula-ReadsAsFormula : (text : List ℕ) → is_formula text ≡ true → ReadsAsFormula text
unfolding is_formula
is_formula-ReadsAsFormula [] h = absurd (ground arith)
is_formula-ReadsAsFormula (d ∷ text) h = elim (Bool-cases (is_break d)) [
  | inl b ↦ breaks text d b refl
  | inr b ↦
      let (before, rest, c, ws, o, e) = operator_found (d ∷ text) (ground arith) in
      calculates before rest c ws o e
]

plain_text : (value : List ℕ) → is_formula (spreadsheet_text value) ≡ false
unfolding spreadsheet_text is_formula is_white
plain_text value = ground arith

-- No cell of the spreadsheet presentation reads as a formula: none is white space followed by `=`,
-- `+`, `-` or `@`, and none starts with a tab or the end of a line. A cell is presented as it is, or
-- with an apostrophe in front, and then it does read as a formula.
pub spreadsheet_text-safe :
    (value : List ℕ)
    → (¬ ReadsAsFormula (spreadsheet_text value))
      × ((spreadsheet_text value ≡ value)
          ⊎ ((spreadsheet_text value ≡ 39 ∷ value) × ReadsAsFormula value))
unfolding spreadsheet_text
spreadsheet_text-safe value = (
  λ f. absurd (cc (ReadsAsFormula-is_formula (spreadsheet_text value) f, plain_text value)),
  elim (Bool-cases (is_formula value)) [
    | inl f ↦ inr (ground arith, is_formula-ReadsAsFormula value f)
    | inr f ↦ inl (ground arith)
  ],
)

-- How often `c` occurs.
abbrev pub count : ℕ → List ℕ → ℕ
count c [] = 0
count c (d ∷ ds) = (if d == c then 1 else 0) + count c ds

count-append : (c : ℕ) (xs ys : List ℕ) → count c (xs ++ ys) ≡ count c xs + count c ys
count-append c [] ys = omega arith
count-append c (x ∷ xs) ys = omega (arith, count-append c xs ys)

count-replace : (c : ℕ) (by text : List ℕ) → count c by ≡ 0 → count c (replace c by text) ≡ 0
unfolding replace
count-replace c by [] h = refl
count-replace c by (d ∷ ds) h =
    ground (arith, count-replace c by ds h, count-append c by (replace c by ds))

count-escape : (value : List ℕ) → count 10 (escape value) ≡ 0
unfolding escape
count-escape value = count-replace 10 (codes "<br>") _ refl

count-join : (ts : List (List ℕ)) → count 10 (join (codes " | ") (map escape ts)) ≡ 0
unfolding join
count-join [] = refl
count-join (t ∷ []) = count-escape t
count-join (t ∷ u ∷ ts) =
    let rest = join (codes " | ") (map escape (u ∷ ts)) in
    omega (
      arith,
      count-append 10 (escape t ++ codes " | ") rest,
      count-append 10 (escape t) (codes " | "),
      count-escape t,
      count-join (u ∷ ts),
    )

count-row : (values : List (List ℕ)) → count 10 (row values) ≡ 1
unfolding row
count-row values =
    let body = join (codes " | ") (map escape values) in
    omega (
      arith,
      count-append 10 (codes "| " ++ body ++ codes " |") (10 ∷ []),
      count-append 10 (codes "| " ++ body) (codes " |"),
      count-append 10 (codes "| ") body,
      count-join values,
    )

count-rows_text : (rows : List (List (List ℕ))) → count 10 (rows_text rows) ≡ length rows
unfolding rows_text
count-rows_text [] = refl
count-rows_text (r ∷ rs) =
    omega (arith, count-append 10 (row r) (rows_text rs), count-row r, count-rows_text rs)

-- Whatever the cells hold, the Markdown table has exactly one line for the columns, one for the rule
-- and one for each row: no cell can break a line.
pub markdown_text-lines : (t : Table) → count 10 (markdown_text t) ≡ 2 + length t.rows
unfolding markdown_text
markdown_text-lines t =
    let rule = row (map (λ _. codes "---") t.columns) in
    omega (
      arith,
      count-append 10 (row t.columns ++ rule) (rows_text t.rows),
      count-append 10 (row t.columns) rule,
      count-row t.columns,
      count-row (map (λ (c : List ℕ). codes "---") t.columns),
      count-rows_text t.rows,
    )
