-- ===== src/AoStr/Search.antt =====
-- The search of aostr.c for a pattern, by Knuth, Morris and Pratt. The pattern is the list of the
-- bytes that may be read through its pointer. `malloc` of an array of `int` is a parameter, and so
-- is `tolower` on bytes.
pub mod Border
pub mod Prefix
pub mod Scan
pub mod First
pub mod Find
mod Tests
use dictionary.Base.Int.{ℤ, negsuc, int_of}
use dictionary.AoStr.{AoStr, u64}
use dictionary.Base.{
  ℕ, zero, suc, ◌+◌, ◌-◌, ◌%◌, ◌^◌, true, false, Option, none, some, List, [], Run, ok, fault,
  ◌>>=◌, at, put, ltb, ◌==◌, if◌then◌else◌,
}

module _ (fold : ℕ → ℕ) where
  -- The inner loops, `while (k > 0 && pattern[k] != c) k = table[k - 1];`, on fuel: a fault where it
  -- ends before the loop does. `fold` is what is compared of the bytes.
  unfoldable pub fall_back : ℕ → List ℕ → List ℕ → ℕ → ℕ → Run ℕ
  fall_back fuel table pattern c zero = ok 0
  fall_back zero table pattern c (suc k) = fault
  fall_back (suc fuel) table pattern c (suc k) = at pattern (suc k) >>= λ p.
      elim (fold p == fold c) [
        | true ↦ ok (suc k)
        | false ↦ at table k >>= λ k'. fall_back fuel table pattern c k'
      ]

-- `k++` of an `int`
abbrev pub increment : ℕ → Run ℕ
increment k = if ltb (k + 1) (2 ^ 31) then ok (k + 1) else fault

-- The loop of `aoStrComputePrefixTable`, with `n` rounds left at `i`
unfoldable pub prefix_loop : List ℕ → ℕ → ℕ → ℕ → List ℕ → Run (List ℕ)
prefix_loop pattern zero i k table = ok table
prefix_loop pattern (suc n) i k table = do
  c ← at pattern i
  k1 ← fall_back (λ b. b) k table pattern c k
  p ← at pattern k1
  k2 ← if p == c then increment k1 else ok k1
  table' ← put table i k2
  prefix_loop pattern n (i + 1) k2 table'

abbrev ints_of : Option (List ℕ) → List ℕ
ints_of none = []
ints_of (some table) = table

-- `aoStrComputePrefixTable`, where `ints n` is the array that `malloc` gives for `n` of type `int`
unfoldable pub compute_prefix_table : (ℕ → Option (List ℕ)) → List ℕ → ℕ → Run (List ℕ)
compute_prefix_table ints pattern patternlen = do
  table ← put (ints_of (ints patternlen)) 0 0
  prefix_loop pattern (patternlen - 1) 1 0 table

module _ (fold : ℕ → ℕ) (table pattern : List ℕ) (patternlen : ℕ) (block : List ℕ) where
  -- The loops of the two searches, with `n` rounds left at `i`: the index where a match ends
  unfoldable pub match_loop : ℕ → ℕ → ℕ → Run (Option ℕ)
  match_loop zero i q = ok none
  match_loop (suc n) i q = at block i >>= λ c. elim (c == 0) [
    | true ↦ ok none
    | false ↦ fall_back fold q table pattern c q >>= λ q1. at pattern q1 >>= λ p.
        let q2 = if fold p == fold c then (q1 + 1) % u64 else q1 in
        elim (q2 == patternlen) [ true ↦ ok (some i) | false ↦ match_loop n (i + 1) q2 ]
  ]

-- `retval`: `i - patternlen + 1` in `size_t`, converted to `int`
abbrev pub return_value : ℕ → Option ℕ → ℤ
return_value patternlen none = negsuc 0
return_value patternlen (some i) = int_of ((i + (u64 - patternlen) + 1) % u64)

-- `aoStrContainsPatternWithTable`
unfoldable pub contains_pattern_with_table : AoStr → List ℕ → List ℕ → ℕ → Run ℤ
contains_pattern_with_table buf table pattern patternlen =
    if patternlen == 0 then ok (negsuc 0) else (do
      found ← match_loop (λ b. b) table pattern patternlen buf.block buf.len 0 0
      ok (return_value patternlen found))

-- `aoStrContainsCasePatternWithTable`, which compares what `tolower` gives
unfoldable pub contains_case_pattern_with_table : (ℕ → ℕ) → AoStr → List ℕ → List ℕ → ℕ → Run ℤ
contains_case_pattern_with_table tolower buf table pattern patternlen =
    if patternlen == 0 then ok (negsuc 0) else (do
      found ← match_loop tolower table pattern patternlen buf.block buf.len 0 0
      ok (return_value patternlen found))

module _ (ints : ℕ → Option (List ℕ)) where
  -- `aoStrContainsPattern`
  unfoldable pub contains_pattern : AoStr → List ℕ → ℕ → Run ℤ
  contains_pattern buf pattern patternlen = do
    table ← compute_prefix_table ints pattern patternlen
    contains_pattern_with_table buf table pattern patternlen

  -- `aoStrContainsCasePattern`: the table is the one that tells cases apart.
  unfoldable pub contains_case_pattern : (ℕ → ℕ) → AoStr → List ℕ → ℕ → Run ℤ
  contains_case_pattern tolower buf pattern patternlen = do
    table ← compute_prefix_table ints pattern patternlen
    contains_case_pattern_with_table tolower buf table pattern patternlen
