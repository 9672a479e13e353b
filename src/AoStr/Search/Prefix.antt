-- ===== src/AoStr/Search/Prefix.antt =====
-- aoStrComputePrefixTable computes the longest borders of the pattern's beginnings.
use mathlib.Core.Path.{subst}
use dictionary.AoStr.Search.{increment, prefix_loop, compute_prefix_table}
use dictionary.AoStr.Search.Border.{
  IsLongest, IsMatch-zero, step-IsLongest, IsTable, folded, fall_back-IsBest,
}
use dictionary.Base.{
  ℕ, zero, suc, ◌+◌, ◌-◌, ◌^◌, ◌<◌, ◌≡◌, refl, sym, ◌∙◌, Bool, true, false, Option, some, List, ok,
  ◌>>=◌, Returns, at-get_or, put-set, set, get_or-set_self, get_or-set_ne, length, length-set, ltb,
  ◌==◌, eq_of_==, if◌then◌else◌, Bool-cases, inl, inr, arith,
}

increment_if :
    (b : Bool) (q : ℕ)
    → q + 1 < 2 ^ 31
    → (if b then increment q else ok q) ≡ ok (if b then suc q else q)
increment_if true q bound =
    let fits : ltb (q + 1) (2 ^ 31) ≡ true = ground arith in
    let e : q + 1 ≡ suc q = omega arith in rw (fits, e)
increment_if false q bound = refl

module _ (pattern : List ℕ) where
  abbrev byte : ℕ → ℕ
  byte = folded (λ b. b) pattern

  abbrev m : ℕ
  m = length pattern

  -- The table of a pattern: as long as it, with a border's length in each cell
  abbrev pub IsPrefixTable : List ℕ → Type 0
  IsPrefixTable table = (length table ≡ m) × IsTable (λ b. b) pattern table m

  set-IsTable :
      (table : List ℕ) (i v : ℕ)
      → i < length table
      → IsTable (λ b. b) pattern table i
      → IsLongest byte byte m 1 (i + 1) v
      → IsTable (λ b. b) pattern (set table i v) (i + 1)
  set-IsTable table i v inside correct new j lt = elim (Bool-cases (j == i)) [
    | inl same ↦ rw (eq_of_== j i same) (
        subst (λ w. IsLongest byte byte m 1 (i + 1) w) (sym (get_or-set_self table i v 0 inside))
          new)
    | inr ne ↦
        let away : ¬ (i ≡ j) = λ e. absurd (ground (arith, ne)) in
        subst (λ w. IsLongest byte byte m 1 (j + 1) w) (sym (get_or-set_ne table i j v 0 away))
          (correct j (ground arith))
  ]

  prefix_loop-IsPrefixTable :
      (n i k : ℕ) (table : List ℕ)
      → 0 < i
      → i + n ≡ m
      → length table ≡ m
      → m < 2 ^ 31
      → IsTable (λ b. b) pattern table i
      → IsLongest byte byte m 1 i k
      → Returns (prefix_loop pattern n i k table) IsPrefixTable
  unfolding prefix_loop
  prefix_loop-IsPrefixTable zero i k table start rounds size bound correct longest =
      let e : i ≡ m = omega arith in (table, refl, (size, rw e at correct))
  prefix_loop-IsPrefixTable (suc n) i k table start rounds size bound correct longest =
      let c = byte i in
      let shorter : k < i = omega (arith, longest.0.1, longest.0.2) in
      let (q, run, (found, best, stop, le)) =
        fall_back-IsBest (λ b. b) pattern table byte k 1 i c k (omega arith) (omega arith)
          (omega arith) (λ j lt. correct j (omega arith)) longest.0
          (λ j lt match same. longest.1 j (omega arith) match) in
      let k2 = if byte q == c then suc q else q in
      let next = step-IsLongest byte byte m 1 i c q (omega arith) refl found best stop in
      let grown = increment_if (byte q == c) q (omega arith) in
      let rows = length-set table i k2 in
      let (table', run', correct') =
        prefix_loop-IsPrefixTable n (i + 1) k2 (set table i k2) (omega arith) (omega arith)
          (rows ∙ size) bound (set-IsTable table i k2 (omega arith) correct next) next in
      let read = at-get_or pattern i 0 (omega arith) in
      let read' = at-get_or pattern q 0 (omega arith) in
      let written = put-set table i k2 (omega arith) in
      (
        table',
        rw (read, ◌>>=◌)
            (rw (run, ◌>>=◌) (rw (read', ◌>>=◌) (rw (grown, ◌>>=◌) (rw (written, ◌>>=◌) run')))),
        correct',
      )

  -- For a pattern that is not empty and shorter than 2^31, where `malloc` gives an array as long,
  -- `aoStrComputePrefixTable` does not fault, its loops end, and cell `i` of the table it returns is
  -- the length of the longest proper border of the first `i + 1` bytes of the pattern.
  pub compute_prefix_table-IsPrefixTable :
      (ints : ℕ → Option (List ℕ)) (cells : List ℕ)
      → ints m ≡ some cells
      → length cells ≡ m
      → 0 < m
      → m < 2 ^ 31
      → Returns (compute_prefix_table ints pattern m) IsPrefixTable
  unfolding compute_prefix_table
  compute_prefix_table-IsPrefixTable ints cells made size filled bound =
      let first : IsLongest byte byte m 1 1 0 =
        (IsMatch-zero byte byte 1 1 (omega arith), λ j lt (s, above, e, occurs). omega arith) in
      let (table, run, correct) =
        prefix_loop-IsPrefixTable (m - 1) 1 0 (set cells 0 0) (omega arith) (omega arith)
          (length-set cells 0 0 ∙ size) bound
          (set-IsTable cells 0 0 (omega arith) (λ i lt. absurd (omega arith)) first) first in
      (table, rw (made, put-set cells 0 0 (omega arith), ◌>>=◌) run, correct)
