-- ===== src/AoStr/Compare.antt =====
-- The comparisons and the case conversions of aostr.c. Of a comparison's result only the sign has a
-- meaning. `tolower` and `toupper` on bytes are parameters.
mod Tests
use Prim.Native.Nat.{compare, Ordering}
use dictionary.Base.Block.{read_block}
use dictionary.AoStr.{AoStr}
use dictionary.Base.{
  ℕ, zero, suc, ◌+◌, true, false, List, [], ◌∷◌, Run, ok, fault, ◌>>=◌, at, put, ltb, ◌==◌,
  if◌then◌else◌,
}

-- `memcmp` of as many bytes
abbrev pub compare_bytes : List ℕ → List ℕ → Ordering
compare_bytes [] b = Ordering.eq
compare_bytes (x ∷ a) [] = Ordering.eq
compare_bytes (x ∷ a) (y ∷ b) =
    let rest = compare_bytes a b in
    elim (compare x y) [
      | Ordering.eq ↦ rest
      | Ordering.lt ↦ Ordering.lt
      | Ordering.gt ↦ Ordering.gt
    ]

-- `memcmp(a, b, n)`, which may read all `n` bytes of both
unfoldable pub mem_cmp : List ℕ → List ℕ → ℕ → Run Ordering
mem_cmp a b n = do x ← read_block a 0 n; y ← read_block b 0 n; ok (compare_bytes x y)

module _ (fold : ℕ → ℕ) where
  -- `strncmp` and, with `tolower`, `strncasecmp`: at most `n` bytes, up to a NUL
  unfoldable pub str_n_cmp : ℕ → List ℕ → List ℕ → Run Ordering
  str_n_cmp zero a b = ok Ordering.eq
  str_n_cmp (suc n) [] b = fault
  str_n_cmp (suc n) (x ∷ a) [] = fault
  str_n_cmp (suc n) (x ∷ a) (y ∷ b) =
      let rest = str_n_cmp n a b in
      elim (compare (fold x) (fold y)) [
        | Ordering.eq ↦ if x == 0 then ok Ordering.eq else rest
        | Ordering.lt ↦ ok Ordering.lt
        | Ordering.gt ↦ ok Ordering.gt
      ]

-- `strcmp`
unfoldable pub str_cmp_bytes : List ℕ → List ℕ → Run Ordering
str_cmp_bytes [] b = fault
str_cmp_bytes (x ∷ a) [] = fault
str_cmp_bytes (x ∷ a) (y ∷ b) =
    let rest = str_cmp_bytes a b in
    elim (compare x y) [
      | Ordering.eq ↦ if x == 0 then ok Ordering.eq else rest
      | Ordering.lt ↦ ok Ordering.lt
      | Ordering.gt ↦ ok Ordering.gt
    ]

-- `mboxStrCmp`, `aoStrNCmp`, `aoStrNCaseCmp`, `aoStrStrNCmp`, `aoStrStrNCaseCmp`, `aoStrCmp` and
-- `aoStrCaseCmp`
unfoldable pub mbox_str_cmp : AoStr → List ℕ → Run Ordering
mbox_str_cmp b1 s = str_cmp_bytes b1.block s

unfoldable pub n_cmp : AoStr → AoStr → ℕ → Run Ordering
n_cmp b1 b2 size = mem_cmp b1.block b2.block size

unfoldable pub n_case_cmp : (ℕ → ℕ) → AoStr → AoStr → ℕ → Run Ordering
n_case_cmp tolower b1 b2 size = str_n_cmp tolower size b1.block b2.block

unfoldable pub str_n_cmp_with : AoStr → List ℕ → ℕ → Run Ordering
str_n_cmp_with b1 s len = str_n_cmp (λ c. c) len b1.block s

unfoldable pub str_n_case_cmp_with : (ℕ → ℕ) → AoStr → List ℕ → ℕ → Run Ordering
str_n_case_cmp_with tolower b1 s len = str_n_cmp tolower len b1.block s

abbrev pub shorter : AoStr → AoStr → ℕ
shorter b1 b2 = if ltb b1.len b2.len then b1.len else b2.len

unfoldable pub cmp : AoStr → AoStr → Run Ordering
cmp b1 b2 = mem_cmp b1.block b2.block (shorter b1 b2)

unfoldable pub case_cmp : (ℕ → ℕ) → AoStr → AoStr → Run Ordering
case_cmp tolower b1 b2 = str_n_cmp tolower (shorter b1 b2) b1.block b2.block

-- The loop of the conversions, with `n` rounds left at `i`
unfoldable pub convert_loop : (ℕ → ℕ) → ℕ → ℕ → List ℕ → Run (List ℕ)
convert_loop f zero i block = ok block
convert_loop f (suc n) i block = do
  c ← at block i
  block' ← put block i (f c)
  convert_loop f n (i + 1) block'

-- `aoStrToLowerCase` and `aoStrToUpperCase`
unfoldable pub to_lower_case : (ℕ → ℕ) → AoStr → Run AoStr
to_lower_case tolower buf = do
  block ← convert_loop tolower buf.len 0 buf.block
  ok (record buf { block = block })

unfoldable pub to_upper_case : (ℕ → ℕ) → AoStr → Run AoStr
to_upper_case toupper buf = do
  block ← convert_loop toupper buf.len 0 buf.block
  ok (record buf { block = block })
