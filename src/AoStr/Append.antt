-- ===== src/AoStr/Append.antt =====
-- What `aoStrPutChar`, `aoStrCatLen` and `aoStrWrite` do to the text of a buffer.
use Prim.Native.Nat.{max}
use dictionary.AoStr.{
  AoStr, Libc, u32, u64, extend_buffer, grown, extend_buffer_if_needed, put_char, cat_len,
}
use dictionary.Base.Block.{write_block, write_block-lem, write_block_one, take-set_self, take-take}
use dictionary.Base.{
  ℕ, ◌+◌, ◌%◌, ◌≤◌, ◌<◌, ◌≡◌, refl, ◌∙◌, sym, ap, true, false, some, List, [], ◌∷◌, ◌++◌, ok, fault,
  ◌>>=◌, Returns, at, put, put-set, put-fault, at-get_or, set, get_or-set_self, length, length-set,
  take, ltb, leb, if◌then◌else◌, arith, Bool-cases, inl, inr,
}

-- What the buffers rely on in the allocator: a block has the size that was asked for, and
-- `realloc` to a size that is no smaller keeps what the block holds.
pub record IsLibc (libc : Libc) : Type 0 where
  pub length-malloc : (n : ℕ) {b : List ℕ} → libc.malloc n ≡ some b → length b ≡ n
  pub length-realloc : (b : List ℕ) (n : ℕ) {c : List ℕ} → libc.realloc b n ≡ some c → length c ≡ n
  pub take-realloc :
      (b : List ℕ) (n : ℕ) {c : List ℕ}
      → length b ≤ n
      → libc.realloc b n ≡ some c
      → take (length b) c ≡ b

-- `realloc` finds memory.
abbrev pub Finds : Libc → Type 0
Finds libc = (b : List ℕ) (n : ℕ) → (c : List ℕ) × (libc.realloc b n ≡ some c)

-- The text that a buffer holds.
abbrev pub text : AoStr → List ℕ
text buf = take buf.len buf.block

-- `capacity` does not exceed the block, which is at most 10 bytes longer, nor `len` the capacity.
pub record IsBuffer (buf : AoStr) : Type 0 where
  pub backed : buf.capacity ≤ length buf.block
  pub slack : length buf.block ≤ buf.capacity + 10
  pub within : buf.len ≤ buf.capacity

-- The NUL after the text.
abbrev pub IsTerminated : AoStr → Type 0
IsTerminated buf = at buf.block buf.len ≡ ok 0

-- The growth that `aoStrExtendBufferIfNeeded` asks for.
abbrev pub growth : ℕ → ℕ
growth n = max n 256

-- The buffer that the writes of `n` bytes and a NUL go to.
record HasRoom (buf : AoStr) (n : ℕ) (buf' : AoStr) : Type 0 where
  room : buf.len + n < buf'.capacity
  bounded : buf'.capacity < u64
  backed : buf'.capacity ≤ length buf'.block
  slack : length buf'.block ≤ buf'.capacity + 10
  len : buf'.len ≡ buf.len
  keeps : text buf' ≡ text buf

extend_buffer-grown :
    (libc : Libc) (buf : AoStr) (g : ℕ) {c : List ℕ}
    → 0 < g
    → buf.capacity + g < u64
    → libc.realloc buf.block (buf.capacity + g) ≡ some c
    → extend_buffer libc buf g ≡ (grown, record buf { block = c; capacity = buf.capacity + g })
unfolding extend_buffer
extend_buffer-grown libc buf g pos bound e =
    let fits : (buf.capacity + g) % u64 ≡ buf.capacity + g = omega arith in
    let more : leb (buf.capacity + g) buf.capacity ≡ false = ground arith in
    rw (fits, more, e) (rw fits)

pub growth-u32 : (n : ℕ) → n < u32 → (if ltb 256 n then n else 256) % u32 ≡ growth n
growth-u32 n h = elim (Bool-cases (ltb 256 n)) [
  | inl big ↦ rw big (ground arith)
  | inr little ↦ rw little (ground arith)
]

module _ {libc : Libc} (lawful : IsLibc libc) (finds : Finds libc) {buf : AoStr} (is : IsBuffer buf)
    (n : ℕ) (small : n < u32) (bound : buf.capacity + growth n < u64)
    (room : buf.len + n < buf.capacity + growth n) where
  extend-HasRoom : HasRoom buf n ((extend_buffer_if_needed libc buf n).1)
  unfolding extend_buffer_if_needed
  extend-HasRoom =
      let (c, e) = finds buf.block (buf.capacity + growth n) in
      let size : length c ≡ buf.capacity + growth n = lawful.length-realloc _ _ e in
      elim (Bool-cases (leb buf.capacity ((buf.len + 1 + n) % u64))) [
        | inr roomy ↦ rw roomy (record {
          room = ground arith;
          bounded = omega arith;
          backed = is.backed;
          slack = is.slack;
          len = refl;
          keeps = refl;
        })
        | inl tight ↦
            rw
              (
                tight,
                growth-u32 n small,
                extend_buffer-grown libc buf (growth n) (omega arith) bound e,
              )
              (record {
                room = room;
                bounded = bound;
                backed = omega arith;
                slack = omega arith;
                len = refl;
                keeps =
                    sym
                      (take-take buf.len (length buf.block) c (omega (arith, is.backed, is.within)))
                    ∙ ap (take buf.len)
                        (lawful.take-realloc buf.block _ (omega (arith, is.slack)) e);
              })
      ]

-- The buffer after `d` has been added: it is well formed with the capacity not used up, ends with
-- a NUL, and holds the old text and `d`.
abbrev pub Appended : AoStr → List ℕ → AoStr → Type 0
Appended buf d b = IsBuffer b × (b.len < b.capacity) × IsTerminated b × (text b ≡ text buf ++ d)

-- A write of the bytes `d` behind the text and of a NUL behind them, in a block that has room.
module _ {buf buf' : AoStr} (d : List ℕ) (r : HasRoom buf (length d) buf') where
  append-Appended :
      Returns
        (write_block buf'.block buf'.len d >>= λ data'.
          put data' ((buf'.len + length d) % u64) 0 >>= λ data''.
          ok (record buf' { block = data''; len = (buf'.len + length d) % u64 }))
        (Appended buf d)
  append-Appended =
      let (ys, run, (len, front)) =
        write_block-lem buf'.block buf'.len d (omega (arith, r.room, r.backed, r.len)) in
      let fits : (buf'.len + length d) % u64 ≡ buf'.len + length d =
        omega (arith, r.room, r.len, r.bounded) in
      let inside : buf'.len + length d < length ys = omega (arith, r.room, r.backed, r.len, len) in
      (
        record buf' { block = set ys (buf'.len + length d) 0; len = buf'.len + length d },
        rw (run, fits, put-set ys _ 0 inside),
        (
          record {
            backed = rw (length-set, len) (r.backed);
            slack = rw (length-set, len) (r.slack);
            within = omega (arith, r.room, r.len);
          },
          omega (arith, r.room, r.len),
          at-get_or (set ys (buf'.len + length d) 0) _ 0 (rw length-set inside)
              ∙ ap ok (get_or-set_self ys (buf'.len + length d) 0 0 inside),
          take-set_self ys _ 0 ∙ front ∙ ap (λ t. t ++ d) (r.keeps),
        ),
      )

module _ {libc : Libc} (lawful : IsLibc libc) (finds : Finds libc) {buf : AoStr}
    (is : IsBuffer buf) where
  -- Where the allocator finds memory, the sizes do not wrap, and the capacity with the growth that
  -- the code asks for exceeds the new length, `aoStrCatLen` puts the bytes behind the text and a NUL
  -- behind them, without a write outside the block, and the buffer stays well formed.
  pub cat_len-append :
      (d : List ℕ)
      → length d < u32
      → buf.capacity + growth (length d) < u64
      → buf.len + length d < buf.capacity + growth (length d)
      → Returns (cat_len libc buf d) (Appended buf d)
  unfolding cat_len
  cat_len-append d small bound room =
      append-Appended d (extend-HasRoom lawful finds is (length d) small bound room)

  -- Where the allocator finds memory and the capacity does not wrap, `aoStrPutChar` puts its byte
  -- behind the text and a NUL behind it, without a write outside the block, on every well-formed
  -- buffer: it always asks for enough.
  pub put_char-append :
      (ch : ℕ) → buf.capacity + 256 < u64 → Returns (put_char libc buf ch) (Appended buf (ch ∷ []))
  unfolding put_char
  put_char-append ch bound =
      let r =
        extend-HasRoom lawful finds is 100 (omega arith) (omega arith) (omega (arith, is.within)) in
      let one : HasRoom buf 1 ((extend_buffer_if_needed libc buf 100).1) = record {
        room = omega (arith, r.room);
        bounded = r.bounded;
        backed = r.backed;
        slack = r.slack;
        len = r.len;
        keeps = r.keeps;
      } in
      let (b, run, p) = append-Appended (ch ∷ []) one in (b, rw write_block_one at run, p)

-- A full buffer, as `aoStrDup` leaves it, to which 256 bytes or more are added: the block grows by
-- just their number, and the NUL is written behind it.
pub cat_len-fault :
    {libc : Libc}
    → IsLibc libc
    → Finds libc
    → {buf : AoStr} → IsBuffer buf
    → (d : List ℕ) → buf.len ≡ buf.capacity
    → 256 ≤ length d
    → length d < u32
    → buf.capacity + length d + 1 < u64
    → cat_len libc buf d ≡ fault
unfolding cat_len extend_buffer_if_needed
cat_len-fault {libc} lawful finds {buf} is d full big small bound =
    let g : growth (length d) ≡ length d = omega arith in
    let (c, e) = finds buf.block (buf.capacity + growth (length d)) in
    let size : length c ≡ buf.capacity + growth (length d) = lawful.length-realloc _ _ e in
    let tight : leb buf.capacity ((buf.len + 1 + length d) % u64) ≡ true = ground arith in
    let (ys, run, (len, _)) = write_block-lem c buf.len d (omega arith) in
    let fits : (buf.len + length d) % u64 ≡ buf.len + length d = omega arith in
    rw (
      tight,
      growth-u32 (length d) small,
      extend_buffer-grown libc buf (growth (length d)) (omega arith) (omega arith) e,
      run,
      fits,
      put-fault ys (buf.len + length d) 0 (omega arith),
    )
