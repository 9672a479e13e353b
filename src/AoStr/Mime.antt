-- ===== src/AoStr/Mime.antt =====
-- The MIME functions of aostr.c: text in the Q encoding between "=?utf-8?Q?" and "?=".
pub mod Loop
pub mod Decode
mod Tests
use Prim.Native.Nat.{◌*◌}
use dictionary.Base.Text.{codes}
use dictionary.AoStr.{AoStr, Libc, u64, alloc, set_len, slice}
use dictionary.Base.{
  ℕ, zero, suc, ◌+◌, ◌-◌, ◌%◌, ◌^◌, Bool, true, false, ◌&&◌, Option, none, some, List, [], ◌∷◌, Run,
  ok, fault, ◌>>=◌, at, put, length, leb, ◌==◌, if◌then◌else◌,
}

-- `strncmp` of a literal with the bytes of the block from `i` on, whether it gives 0
unfoldable pub matches_at : List ℕ → ℕ → List ℕ → Run Bool
matches_at block i [] = ok true
matches_at block i (c ∷ cs) =
    at block i >>= λ b. elim (c == b) [ true ↦ matches_at block (i + 1) cs | false ↦ ok false ]

abbrev pub prefix : List ℕ
prefix = codes "=?utf-8?Q?"

abbrev pub suffix : List ℕ
suffix = codes "?="

-- `aoStrIsMimeEncoded`
unfoldable pub is_mime_encoded : AoStr → Run Bool
is_mime_encoded buf = matches_at buf.block 0 prefix >>= λ begins. elim begins [
  | true ↦ matches_at buf.block ((buf.len + (u64 - 2)) % u64) suffix
  | false ↦ ok false
]

-- `hexToInt`, nothing for -1
unfoldable pub hex_to_int : ℕ → Option ℕ
hex_to_int c =
    if leb b'0' c && leb c b'9'
    then some (c - b'0')
    else if leb b'A' c && leb c b'F'
    then some (c - b'A' + 10)
    else if leb b'a' c && leb c b'f'
    then some (c - b'a' + 10)
    else none

-- `(hi << 4) | lo` where neither is -1: the two halves of the byte do not overlap.
abbrev pub joined_digits : Option ℕ → Option ℕ → Option ℕ
joined_digits none lo = none
joined_digits (some hi) none = none
joined_digits (some hi) (some lo) = some (hi * 16 + lo)

-- `decodeMimeEncoded` with the same block to read and to write, on fuel: a fault where it ends before
-- the loop does. The loop reads at `i`; its other result is `outlen`.
unfoldable pub decode_loop : ℕ → List ℕ → ℕ → ℕ → Run (List ℕ × ℕ)
decode_loop zero block i len = fault
decode_loop (suc fuel) block i len = at block i >>= λ c. elim (c == 0) [
  | true ↦ ok (block, len)
  | false ↦ elim (c == b'=') [
    | true ↦ at block (i + 1) >>= λ h. at block (i + 2) >>= λ l.
        elim (joined_digits (hex_to_int h) (hex_to_int l)) [
          | some v ↦ put block len v >>= λ block'. decode_loop fuel block' (i + 3) (len + 1)
          | none ↦ put block len c >>= λ block'. decode_loop fuel block' (i + 1) (len + 1)
        ]
    | false ↦ put block len c >>= λ block'. decode_loop fuel block' (i + 1) (len + 1)
  ]
]

-- `aoStrDecodeMimeEncodedInplace`
unfoldable pub decode_mime_encoded_inplace : AoStr → Run AoStr
decode_mime_encoded_inplace buf = do
  inner ← slice buf 10 0 ((buf.len + (u64 - 12)) % u64)
  (block, outlen) ← decode_loop (length inner.block) inner.block 0 0
  set_len (record inner { block = block }) outlen

-- `aoStrDecodeMimeEncoded` copies from `buf + 10`, which is ten structures behind `buf`: any byte read
-- there is a fault. Without one, `tmp` is the array on the stack and holds the NUL alone.
unfoldable pub decode_mime_encoded : Libc → AoStr → Run AoStr
decode_mime_encoded libc buf = do
  out ← alloc libc 512
  if (buf.len + (u64 - 12)) % u64 == 0 then set_len out 0 else fault
