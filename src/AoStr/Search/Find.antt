-- ===== src/AoStr/Search/Find.antt =====
-- aoStrContainsPattern and aoStrContainsCasePattern find the first occurrence in the text up to its
-- first NUL.
use mathlib.Core.Path.{fun_ext, subst}
use dictionary.Base.Int.{ℤ, pos, negsuc, int_of}
use dictionary.AoStr.{AoStr, u64}
use dictionary.AoStr.Search.{
  match_loop, return_value, contains_pattern_with_table, contains_case_pattern_with_table,
  contains_pattern, contains_case_pattern,
}
use dictionary.AoStr.Search.Border.{IsLongest, IsTable, folded, IsMatch-zero}
use dictionary.AoStr.Search.Prefix.{compute_prefix_table-IsPrefixTable}
use dictionary.AoStr.Search.Scan.{IsFirst, IsStop, match_loop-IsFirst}
use dictionary.AoStr.Search.First.{first_occurrence, first_occurrence-some, first_occurrence-none}
use dictionary.Base.{
  ℕ, zero, suc, ◌+◌, ◌-◌, ◌%◌, ◌^◌, ◌≤◌, ◌<◌, ◌≡◌, refl, sym, ap, ◌∙◌, true, false, Option, none,
  some, List, [], ◌∷◌, ok, ◌>>=◌, Returns, get_or, length, take, All, ltb, ◌==◌, eq_of_==,
  if◌then◌else◌, Bool-cases, inl, inr, arith,
}

abbrev pub before_nul : List ℕ → List ℕ
before_nul [] = []
before_nul (c ∷ cs) = if c == 0 then [] else c ∷ before_nul cs

-- What the search returns for a place
abbrev pub position : Option ℕ → ℤ
position none = negsuc 0
position (some s) = pos s

abbrev seen : List ℕ → ℕ → List ℕ
seen block len = before_nul (take len block)

before_nul-IsStop :
    (block : List ℕ) (len : ℕ) → len ≤ length block → IsStop block len (length (seen block len))
before_nul-IsStop block zero h = (omega arith, (λ j lt. absurd (omega arith)), inl refl)
before_nul-IsStop [] (suc len) h = absurd (omega arith)
before_nul-IsStop (c ∷ cs) (suc len) h = elim (Bool-cases (c == 0)) [
  | inl nul ↦ rw nul (omega arith, (λ j lt. absurd (omega arith)), inr (eq_of_== c 0 nul))
  | inr more ↦
      let (within, filled, end) = before_nul-IsStop cs len (omega arith) in
      rw more (omega arith, go more filled, elim end [ inl e ↦ inl (ap suc e) | inr nul ↦ inr nul ])
]
  where
    go :
        (c == 0) ≡ false
        → ((j : ℕ) → j < length (seen cs len) → ¬ (get_or cs j 0 ≡ 0))
        → (j : ℕ) → j < suc (length (seen cs len))
        → ¬ (get_or (c ∷ cs) j 0 ≡ 0)
    go more filled zero lt e = ground (arith, e, more)
    go more filled (suc j) lt e = filled j (omega arith) e

get_or-before_nul :
    (block : List ℕ) (len j : ℕ)
    → j < length (seen block len)
    → get_or (seen block len) j 0 ≡ get_or block j 0
get_or-before_nul block zero j lt = absurd (omega arith)
get_or-before_nul [] (suc len) j lt = absurd (omega arith)
get_or-before_nul (c ∷ cs) (suc len) zero lt = elim (Bool-cases (c == 0)) [
  | inl nul ↦ absurd (omega (arith, rw nul at lt))
  | inr more ↦ rw more
]
get_or-before_nul (c ∷ cs) (suc len) (suc j) lt = elim (Bool-cases (c == 0)) [
  | inl nul ↦ absurd (omega (arith, rw nul at lt))
  | inr more ↦ rw more (get_or-before_nul cs len j (omega (arith, rw more at lt)))
]

int_of_small : (n : ℕ) → n < 2 ^ 31 → int_of n ≡ pos n
int_of_small n bound =
    let w : n % 2 ^ 32 ≡ n = omega arith in
    let small : ltb n (2 ^ 31) ≡ true = ground arith in rw (w, small)

module _ (fold : ℕ → ℕ) (pattern block : List ℕ) (len : ℕ) where
  abbrev m : ℕ
  m = length pattern

  abbrev P : ℕ → ℕ
  P = folded fold pattern

  abbrev T : ℕ → ℕ
  T = folded fold block

  abbrev text : List ℕ
  text = seen block len

  agree : (s : ℕ) → s + m ≤ length text → (i : ℕ) → i < m → folded fold text (s + i) ≡ T (s + i)
  agree s inside i lt = ap fold (get_or-before_nul block len (s + i) (omega arith))

  IsFirst-position :
      (found : Option ℕ)
      → 0 < m
      → length text < 2 ^ 31
      → IsFirst P T m (length text) found
      → return_value m found ≡ position (first_occurrence fold pattern text)
  IsFirst-position none filled bound never = rw (
      first_occurrence-none fold pattern filled text (λ s inside occurs.
        never (s + m) inside (s, omega arith, refl, λ i lt. occurs i lt ∙ agree s inside i lt)))
  IsFirst-position (some e) filled bound (within, (s, _, end, occurs), earlier) =
      let inside : s + m ≤ length text = omega arith in
      let place : (e + (u64 - m) + 1) % u64 ≡ s = omega arith in
      let first =
        first_occurrence-some fold pattern filled text s inside
          (λ i lt. occurs i lt ∙ sym (agree s inside i lt))
          (λ t lt occurs'.
            earlier (t + m) (omega arith)
              (t, omega arith, refl, λ i h. occurs' i h ∙ agree t (omega arith) i h)) in
      rw (first, place) (int_of_small s (omega arith))

  match_loop-position :
      (table : List ℕ)
      → 0 < m
      → m < u64
      → len ≤ length block
      → len < 2 ^ 31
      → length table ≡ m
      → IsTable fold pattern table m
      → Returns
          (match_loop fold table pattern m block len 0 0)
          (λ found. return_value m found ≡ position (first_occurrence fold pattern text))
  match_loop-position table filled bound inside short size correct =
      let stop = before_nul-IsStop block len inside in
      let (found, run, first) =
        match_loop-IsFirst fold table pattern block (length text) len stop inside bound size correct
          len 0 0 (omega arith) (omega arith) (omega arith)
          (IsMatch-zero P T 0 0 (omega arith), λ j le (s, above, e, occurs). omega arith)
          (λ n le (s, above, e, occurs). omega arith) in
      (found, run, IsFirst-position found filled (omega (arith, stop.0)) first)

folded-lower :
    (tolower : ℕ → ℕ) (bytes : List ℕ)
    → tolower 0 ≡ 0
    → All (λ c. tolower c ≡ c) bytes
    → (i : ℕ) → folded (λ b. b) bytes i ≡ folded tolower bytes i
folded-lower tolower [] nul lower i = sym nul
folded-lower tolower (c ∷ cs) nul lower zero = sym (lower.0)
folded-lower tolower (c ∷ cs) nul lower (suc i) = folded-lower tolower cs nul lower.1 i

module _ (ints : ℕ → Option (List ℕ)) (buf : AoStr) (pattern cells : List ℕ) where
  abbrev n : ℕ
  n = length pattern

  module _ (made : ints n ≡ some cells) (size : length cells ≡ n) (filled : 0 < n)
      (bound : n < 2 ^ 31) (inside : buf.len ≤ length buf.block) (short : buf.len < 2 ^ 31) where
    -- For a pattern that is not empty, in a buffer whose length is not above its block's, both below
    -- 2^31, where `malloc` gives the table: `aoStrContainsPattern` does not fault, its loops end, and it
    -- returns the first place where the pattern occurs in the text up to its first NUL, as trying every
    -- place in turn finds it, or -1 where there is none.
    pub contains_pattern-first_occurrence :
        contains_pattern ints buf pattern n
        ≡ ok (position (first_occurrence (λ b. b) pattern (before_nul (take buf.len buf.block))))
    unfolding contains_pattern contains_pattern_with_table
    contains_pattern-first_occurrence =
        let some_pattern : (n == 0) ≡ false = ground arith in
        let (table, run, (size', correct)) =
          compute_prefix_table-IsPrefixTable pattern ints cells made size filled bound in
        let (found, run', e) =
          match_loop-position (λ b. b) pattern buf.block buf.len table filled (omega arith) inside
            short size' correct in
        rw (run, ◌>>=◌) (rw (some_pattern, run', ◌>>=◌) (ap ok e))

    -- Under the same conditions and for a pattern that `tolower` does not change, where it keeps NUL:
    -- `aoStrContainsCasePattern` does not fault, its loops end, and it returns the first place where
    -- the bytes of the text up to its first NUL are, under `tolower`, those of the pattern, as trying
    -- every place in turn finds it, or -1 where there is none.
    pub contains_case_pattern-first_occurrence :
        (tolower : ℕ → ℕ)
        → tolower 0 ≡ 0
        → All (λ c. tolower c ≡ c) pattern
        → contains_case_pattern ints tolower buf pattern n
          ≡ ok (position (first_occurrence tolower pattern (before_nul (take buf.len buf.block))))
    unfolding contains_case_pattern contains_case_pattern_with_table
    contains_case_pattern-first_occurrence tolower nul lower =
        let some_pattern : (n == 0) ≡ false = ground arith in
        let (table, run, (size', correct)) =
          compute_prefix_table-IsPrefixTable pattern ints cells made size filled bound in
        let (found, run', e) =
          match_loop-position tolower pattern buf.block buf.len table filled (omega arith) inside
            short size'
            (subst (λ P. (i : ℕ) → i < n → IsLongest P P n 1 (i + 1) (get_or table i 0))
              (fun_ext (folded-lower tolower pattern nul lower)) correct) in
        rw (run, ◌>>=◌) (rw (some_pattern, run', ◌>>=◌) (ap ok e))
