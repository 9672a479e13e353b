-- ===== src/Database.antt =====
-- dbclient.c, with SQLite as a parameter.
mod Tests
use dictionary.Base.{
  ℕ, Bool, ltb, fault, ◌||◌, not, Option, none, some, List, [], ◌∷◌, Run, ok, ◌>>=◌, length, ◌==◌,
  if◌then◌else◌,
}

-- A row's columns, each NULL or a text
abbrev pub Row : Type 0
Row = List (Option (List ℕ))

-- `dbConnect`: whether memory for the client is found, and what `sqlite3_open` opens
unfoldable pub connect : {Connection : Type 0} → Bool → Option Connection → Option Connection
connect memory opened = if memory then opened else none

-- What `sqlite3_prepare_v2` and the first `sqlite3_step` make of a statement: an error, no row, or the
-- first column of a row, which is NULL or a text.
pub data Step : Type 0 where
  not_prepared : Step
  no_row : Step
  first_column : Option (List ℕ) → Step

-- `dbGetRowCount`. The copy of the statement is cut to its array of 2000 bytes, and the NUL goes behind
-- all that `snprintf` would have written.
unfoldable pub get_row_count : (query_step : List ℕ → Step) → (atoll : List ℕ → ℕ) → List ℕ → Run ℕ
get_row_count query_step atoll stmt =
    if ltb (length stmt) 2000
    then elim (query_step stmt) [
      | not_prepared ↦ ok 0
      | no_row ↦ ok 0
      | first_column none ↦ fault
      | first_column (some val) ↦ ok (atoll val)
    ]
    else fault

module _ {S : Type 0} (func : S → Row → Run (Option S)) where
  -- The rows from the second on. `func` gives nothing where it ends the program.
  unfoldable pub row_loop : S → List Row → Run (Option S)
  row_loop p [] = ok (some p)
  row_loop p (row ∷ rows) =
      func p row >>= λ r. elim r [ none ↦ ok none | some p' ↦ row_loop p' rows ]

  -- `dbForEachRow`, with the rows that `sqlite3_step` gives, or nothing where `sqlite3_prepare_v2`
  -- fails; `memory` tells whether `malloc` finds memory for the tuple.
  unfoldable pub for_each_row : Bool → S → Option (List Row) → Run (Option S)
  for_each_row memory p none = ok (some p)
  for_each_row memory p (some []) = ok (some p)
  for_each_row memory p (some (row ∷ rows)) =
      if length row == 0 || not memory
      then ok (some p)
      else (func p row >>= λ r. elim r [ none ↦ ok none | some p' ↦ row_loop p' rows ])
