-- ===== src/AoStr/Escape.antt =====
-- aoStrCatPrintf and aoStrEscapeString of aostr.c. `char` is signed.
pub mod Grow
pub mod Written
pub mod Text
mod Tests
use Prim.Native.Nat.{◌*◌, ◌/◌}
use dictionary.Base.Text.{codes}
use dictionary.AoStr.{AoStr, Libc, u32, u64, alloc, put_char, cat_len}
use dictionary.Base.{
  ℕ, zero, suc, ◌+◌, ◌-◌, ◌%◌, ◌^◌, Bool, true, false, ◌&&◌, not, Option, none, some, List, [], ◌∷◌,
  ◌++◌, Run, ok, fault, ◌>>=◌, length, replicate, ltb, ◌==◌, if◌then◌else◌,
}

-- `bufferlen`: three times the format, converted to `int`, and no less than 512
abbrev pub buffer_len : ℕ → ℕ
buffer_len fmt_len =
    let w = fmt_len * 3 % u64 % u32 in if ltb 512 w && ltb w (2 ^ 31) then w else 512

-- `aoStrCatPrintf`, where `formatted` is all that the format and its arguments give. Where it is cut
-- off, `vsnprintf` is called again with an argument list that is used up, which is undefined.
unfoldable pub cat_printf : Libc → AoStr → (fmt formatted : List ℕ) → Run AoStr
cat_printf libc b fmt formatted = elim (libc.malloc (buffer_len (length fmt))) [
  | none ↦ fault
  | some _ ↦
      if ltb (length formatted) (buffer_len (length fmt) - 1)
      then cat_len libc b formatted
      else fault
]

-- `%x`, `f` digits at most, in front of `rest`
abbrev pub hex_digits : ℕ → ℕ → List ℕ → List ℕ
hex_digits zero n rest = rest
hex_digits (suc f) n rest =
    let digit = if ltb (n % 16) 10 then 48 + n % 16 else 87 + n % 16 in
    let more = hex_digits f (n / 16) (digit ∷ rest) in if ltb n 16 then digit ∷ rest else more

-- `%04x` of an `unsigned int`
abbrev pub padded_hex : ℕ → List ℕ
padded_hex n = let digits = hex_digits 8 n [] in replicate (4 - length digits) b'0' ++ digits

-- `(unsigned int)*ptr`
abbrev pub unsigned : ℕ → ℕ
unsigned c = if ltb c 128 then c else u32 - 256 + c

-- `*ptr > 31 && *ptr != '\"' && *ptr != '\\'`
abbrev pub is_plain : ℕ → Bool
is_plain c = ltb 31 c && ltb c 128 && not (c == 34) && not (c == 92)

-- The cases of the `switch` but the last
abbrev pub short_escape : ℕ → Option ℕ
short_escape c =
    if c == 92
    then some 92
    else if c == 34
    then some 34
    else if c == 8
    then some b'b'
    else if c == 10
    then some b'n'
    else if c == 9
    then some b't'
    else if c == 11
    then some b'v'
    else if c == 12
    then some b'f'
    else if c == 13
    then some b'r'
    else none

module _ (libc : Libc) where
  -- The body of the loop
  unfoldable pub escape_char : AoStr → ℕ → Run AoStr
  escape_char out c = elim (is_plain c) [
    | true ↦ put_char libc out c
    | false ↦ put_char libc out 92 >>= λ out'. elim (short_escape c) [
      | some e ↦ put_char libc out' e
      | none ↦ cat_printf libc out' (codes "u%04x") (b'u' ∷ padded_hex (unsigned c))
    ]
  ]

  -- `while (*ptr)`, on what is left of the block
  unfoldable pub escape_loop : AoStr → List ℕ → Run AoStr
  escape_loop out [] = fault
  escape_loop out (c ∷ cs) = elim (c == 0) [
    | true ↦ ok out
    | false ↦ escape_char out c >>= λ out'. escape_loop out' cs
  ]

  -- `aoStrEscapeString`: the test for NULL comes after `buf->capacity` is read.
  unfoldable pub escape_string : Option AoStr → Run AoStr
  escape_string none = fault
  escape_string (some buf) = do out ← alloc libc buf.capacity; escape_loop out buf.block
