-- ===== src/AoStr/Search/Tests.antt =====
-- Searches in a short text, with an allocator that always finds memory.
use dictionary.Base.Int.{pos, negsuc}
use dictionary.Base.Text.{codes}
use dictionary.AoStr.{AoStr}
use dictionary.AoStr.Search.{
  fall_back, prefix_loop, compute_prefix_table, match_loop, contains_pattern_with_table,
  contains_case_pattern_with_table, contains_pattern, contains_case_pattern,
}
use dictionary.AoStr.Search.First.{first_occurrence}
use dictionary.AoStr.Search.Find.{contains_pattern-first_occurrence, position, before_nul}
use dictionary.Base.{
  ℕ, ◌+◌, ◌≡◌, refl, ◌&&◌, Option, some, List, [], ◌∷◌, ◌++◌, ok, at, put, length, take, replicate,
  leb, if◌then◌else◌, arith,
}

abbrev ints : ℕ → Option (List ℕ)
ints n = some (replicate n 7)

abbrev buffer : List ℕ → AoStr
buffer s = record { block = s ++ 0 ∷ 0 ∷ []; offset = 0; len = length s; capacity = length s + 2 }

-- `tolower` in the C locale
abbrev lower : ℕ → ℕ
lower c = if leb 65 c && leb c 90 then c + 32 else c

table : compute_prefix_table ints (codes "ababaca") 7 ≡ ok (0 ∷ 0 ∷ 1 ∷ 2 ∷ 3 ∷ 0 ∷ 1 ∷ [])
unfolding at put fall_back prefix_loop compute_prefix_table
table = refl

found : contains_pattern ints (buffer (codes "bacbababacaab")) (codes "ababaca") 7 ≡ ok (pos 4)
unfolding at put fall_back prefix_loop compute_prefix_table match_loop contains_pattern_with_table
    contains_pattern
found = refl

-- The search ends at a NUL inside the text.
cut :
    contains_pattern ints (buffer (codes "bac" ++ 0 ∷ codes "cat")) (codes "cat") 3 ≡ ok (negsuc 0)
unfolding at put fall_back prefix_loop compute_prefix_table match_loop contains_pattern_with_table
    contains_pattern
cut = refl

-- A pattern in mixed case is not found where it stands.
missed : contains_case_pattern ints lower (buffer (codes "aaAb")) (codes "aAb") 3 ≡ ok (negsuc 0)
unfolding at put fall_back prefix_loop compute_prefix_table match_loop contains_case_pattern
    contains_case_pattern_with_table
missed = refl

present : first_occurrence lower (codes "aAb") (codes "aaAb") ≡ some 1
present = refl

contains_pattern-first_occurrence_example :
    contains_pattern ints (buffer (codes "ababab")) (codes "bab") 3
    ≡ ok (
        position (
          first_occurrence
            (λ b. b)
            (codes "bab")
            (before_nul (take 6 (codes "ababab" ++ 0 ∷ 0 ∷ [])))))
contains_pattern-first_occurrence_example =
    contains_pattern-first_occurrence ints (buffer (codes "ababab")) (codes "bab") (replicate 3 7)
      refl refl (omega arith) (omega arith) (omega arith) (omega arith)
