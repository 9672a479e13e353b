-- ===== src/Database/Tests.antt =====
-- dbGetRowCount on the statement of serverInitDictionary and on one that its array does not hold
use dictionary.Base.Text.{codes}
use dictionary.Database.{Step, not_prepared, no_row, first_column, get_row_count}
use dictionary.Base.{ℕ, ◌≡◌, refl, none, some, List, ok, fault, length, replicate}

abbrev count_rows : List ℕ
count_rows = codes "SELECT COUNT(*) FROM dict;"

abbrev two_rows : Step
two_rows = first_column (some (codes "12"))

row_count : get_row_count (λ _. two_rows) length count_rows ≡ ok 2
unfolding get_row_count
row_count = refl

row_count_without_table : get_row_count (λ _. not_prepared) length count_rows ≡ ok 0
unfolding get_row_count
row_count_without_table = refl

row_count_without_row : get_row_count (λ _. no_row) length count_rows ≡ ok 0
unfolding get_row_count
row_count_without_row = refl

row_count_null : get_row_count (λ _. first_column none) length count_rows ≡ fault
unfolding get_row_count
row_count_null = refl

row_count_long : get_row_count (λ _. no_row) length (replicate 2000 65) ≡ fault
unfolding get_row_count
row_count_long = refl
