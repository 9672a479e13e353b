-- ===== src/AoStr.antt =====
-- The string buffer of aostr.c and aostr.h. `data` is the whole allocated block, byte by byte, and
-- is empty where `malloc` returned NULL. The allocator is a parameter, `Libc`. `size_t` is 64
-- bits wide and `unsigned int` 32.
pub mod Append
pub mod Edit
pub mod Search
pub mod Mime
pub mod Escape
pub mod Compare
pub mod Split
pub mod Tests
use dictionary.Base.Block.{read_block, write_block}
use dictionary.Base.{
  ℕ, ◌+◌, ◌-◌, ◌%◌, ◌^◌, Bool, false, Option, none, some, List, [], Run, ok, fault, ◌>>=◌, at, put,
  length, ltb, leb, ◌==◌, if◌then◌else◌,
}

pub record AoStr : Type 0 where
  pub block : List ℕ
  pub offset : ℕ
  pub len : ℕ
  pub capacity : ℕ

-- `malloc` and `realloc`: the new block with what it holds, or nothing.
pub record Libc : Type 0 where
  pub malloc : ℕ → Option (List ℕ)
  pub realloc : List ℕ → ℕ → Option (List ℕ)

abbrev pub u32 : ℕ
u32 = 2 ^ 32

abbrev pub u64 : ℕ
u64 = 2 ^ 64

abbrev block_of : Option (List ℕ) → List ℕ
block_of none = []
block_of (some b) = b

-- `aoStrExtendBuffer` returns -1, 0 or 1.
pub data Extension : Type 0 where
  too_large no_change grown : Extension

module _ (libc : Libc) where
  -- `aoStrAlloc`: `buf->capacity = …` follows a `malloc` of the 32-byte struct that may be NULL.
  unfoldable pub alloc : ℕ → Run AoStr
  alloc capacity = elim (libc.malloc 32) [
    | none ↦ fault
    | some _ ↦
        let size = (capacity + 10) % u64 in
        ok (record { block = block_of (libc.malloc size); offset = 0; len = 0; capacity = size })
  ]

  -- `aoStrExtendBuffer`; its parameter is an `unsigned int`.
  unfoldable pub extend_buffer : AoStr → ℕ → Extension × AoStr
  extend_buffer buf additional =
      let new_capacity = (buf.capacity + additional) % u64 in
      if leb new_capacity buf.capacity
      then (too_large, buf)
      else elim (libc.realloc buf.block new_capacity) [
        | none ↦ (no_change, buf)
        | some tmp ↦ (grown, record buf { block = tmp; capacity = new_capacity })
      ]

  -- `aoStrExtendBufferIfNeeded`: the call converts its `size_t` to an `unsigned int`.
  unfoldable pub extend_buffer_if_needed : AoStr → ℕ → Extension × AoStr
  extend_buffer_if_needed buf additional =
      if leb buf.capacity ((buf.len + 1 + additional) % u64)
      then extend_buffer buf ((if ltb 256 additional then additional else 256) % u32)
      else (no_change, buf)

-- `aoStrSetLen`
unfoldable pub set_len : AoStr → ℕ → Run AoStr
set_len buf len = do data' ← put buf.block len 0; ok (record buf { block = data'; len = len })

-- `aoStrSetOffset`, `aoStrSetCapacity`, `aoStrAdvance`, `aoStrAdvanceBy` and `aoStrRewindBy`
unfoldable pub set_offset : AoStr → ℕ → AoStr
set_offset buf offset = record buf { offset = offset }

unfoldable pub set_capacity : AoStr → ℕ → AoStr
set_capacity buf capacity = record buf { capacity = capacity }

unfoldable pub advance : AoStr → AoStr
advance buf = record buf { offset = (buf.offset + 1) % u64 }

unfoldable pub advance_by : AoStr → ℕ → AoStr
advance_by buf by = record buf { offset = (buf.offset + by) % u64 }

unfoldable pub rewind_by : AoStr → ℕ → AoStr
rewind_by buf by = record buf { offset = (buf.offset + (u64 - by)) % u64 }

-- `aoStrGetCharAt`, `aoStrGetChar`, `aoStrMatchCharAt`, `aoStrMatchChar` and `aoStrWouldOverflow`
unfoldable pub get_char_at : AoStr → ℕ → Run ℕ
get_char_at buf i =
    if ltb buf.len ((buf.offset + i) % u64) then ok 0 else at buf.block ((buf.offset + i) % u64)

unfoldable pub get_char : AoStr → Run ℕ
get_char buf = if ltb buf.len buf.offset then ok 0 else at buf.block buf.offset

unfoldable pub match_char_at : AoStr → ℕ → ℕ → Run Bool
match_char_at buf ch i =
    if ltb buf.len ((i + buf.offset) % u64)
    then ok false
    else do c ← at buf.block ((buf.offset + i) % u64); ok (c == ch)

unfoldable pub match_char : AoStr → ℕ → Run Bool
match_char buf ch = do c ← at buf.block buf.offset; ok (c == ch)

unfoldable pub would_overflow : AoStr → ℕ → Bool
would_overflow buf additional = ltb buf.len ((buf.offset + additional) % u64)

-- `aoStrUnPutChar`
unfoldable pub un_put_char : AoStr → Run (ℕ × AoStr)
un_put_char buf = if buf.len == 0 then ok (0, buf) else do
  ch ← at buf.block ((buf.len + (u64 - 2)) % u64)
  data' ← put buf.block (buf.len - 1) 0
  ok (ch, record buf { block = data'; len = buf.len - 1 })

-- `aoStrSlice`: `memmove` reads all the bytes before it writes.
unfoldable pub slice : AoStr → ℕ → ℕ → ℕ → Run AoStr
slice buf from to size = do
  moved ← read_block buf.block from size
  data' ← write_block buf.block to moved
  data'' ← put data' size 0
  ok (record buf { block = data''; len = size })

module _ (libc : Libc) where
  -- `aoStrPutChar`
  unfoldable pub put_char : AoStr → ℕ → Run AoStr
  put_char buf ch = do
    let (_, buf') = extend_buffer_if_needed libc buf 100
    data' ← put buf'.block buf'.len ch
    data'' ← put data' ((buf'.len + 1) % u64) 0
    ok (record buf' { block = data''; len = (buf'.len + 1) % u64 })

  -- `aoStrCatLen`; `d` is the `len` bytes that are copied.
  unfoldable pub cat_len : AoStr → List ℕ → Run AoStr
  cat_len buf d = do
    let (_, buf') = extend_buffer_if_needed libc buf (length d)
    data' ← write_block buf'.block buf'.len d
    data'' ← put data' ((buf'.len + length d) % u64) 0
    ok (record buf' { block = data''; len = (buf'.len + length d) % u64 })

  -- `aoStrWrite`, which also returns `len`
  unfoldable pub write : AoStr → List ℕ → Run AoStr
  write buf s = do
    let (_, buf') = extend_buffer_if_needed libc buf (length s)
    data' ← write_block buf'.block 0 s
    data'' ← put data' (length s) 0
    ok (record buf' { block = data''; len = length s })

  -- `aoStrDupRaw`; `s` is the `len` bytes that are copied.
  unfoldable pub dup_raw : List ℕ → ℕ → Run AoStr
  dup_raw s capacity = do
    dupe ← alloc libc capacity
    data' ← write_block dupe.block 0 s
    dupe' ← set_len (record dupe { block = data' }) (length s)
    ok (set_capacity dupe' capacity)

  -- `aoStrDup`
  unfoldable pub dup : AoStr → Run AoStr
  dup buf = do s ← read_block buf.block 0 buf.len; dup_raw s buf.len

  -- `aoStrMaybeDup`
  unfoldable pub maybe_dup : Option AoStr → Run (Option AoStr)
  maybe_dup none = ok none
  maybe_dup (some buf) = do b ← dup buf; ok (some b)
