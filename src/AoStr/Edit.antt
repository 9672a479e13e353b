-- ===== src/AoStr/Edit.antt =====
-- `aoStrUnPutChar` and `aoStrDupRaw`.
use dictionary.AoStr.Append.{IsLibc, IsBuffer, IsTerminated, text}
use dictionary.AoStr.{AoStr, Libc, u64, alloc, set_len, set_capacity, un_put_char, dup_raw}
use dictionary.Base.Block.{write_block-lem, take-set_self, take-take}
use dictionary.Base.{
  ℕ, ◌+◌, ◌-◌, ◌%◌, ◌≤◌, ◌<◌, ◌≡◌, refl, ◌∙◌, sym, ap, false, some, List, ok, fault, ◌>>=◌, Returns,
  at-get_or, at-fault, put-set, set, get_or, get_or-take, get_or-set_self, length, length-set, take,
  ◌==◌, arith,
}

-- `aoStrUnPutChar` returns NUL and changes nothing on an empty buffer, and reads outside the block
-- when one byte is left. With two or more it drops the last byte and returns the one before it.
pub un_put_char-previous :
    {buf : AoStr}
    → IsBuffer buf
    → buf.capacity + 10 < u64
    → (buf.len ≡ 0 → un_put_char buf ≡ ok (0, buf))
      × (buf.len ≡ 1 → un_put_char buf ≡ fault)
      × (2 ≤ buf.len
          → Returns (un_put_char buf) λ (ch, b).
            (ch ≡ get_or (text buf) (buf.len - 2) 0)
            × (text b ≡ take (buf.len - 1) (text buf))
            × IsTerminated b)
unfolding un_put_char
un_put_char-previous {buf} is bound = (
  λ e. rw e,
  λ e.
      let wraps : (buf.len + (u64 - 2)) % u64 ≡ u64 - 1 = omega arith in
      let far : length buf.block ≤ u64 - 1 = omega (arith, is.slack) in
      let some_left : (buf.len == 0) ≡ false = ground arith in
      rw (some_left, wraps, at-fault buf.block (u64 - 1) far),
  λ h.
      let i = buf.len - 1 in
      let inside : i < length buf.block = omega (arith, is.backed, is.within) in
      let two : (buf.len + (u64 - 2)) % u64 ≡ buf.len - 2 = omega (arith, is.within) in
      let some_left : (buf.len == 0) ≡ false = ground arith in
      (
        (get_or buf.block (buf.len - 2) 0, record buf { block = set buf.block i 0; len = i }),
        rw (
          some_left,
          two,
          at-get_or buf.block (buf.len - 2) 0 (omega arith),
          put-set buf.block i 0 inside,
        ),
        (
          sym (get_or-take buf.block (buf.len - 2) buf.len 0 (omega arith)),
          take-set_self buf.block i 0 ∙ sym (take-take i buf.len buf.block (omega arith)),
          at-get_or (set buf.block i 0) i 0 (rw length-set inside)
              ∙ ap ok (get_or-set_self buf.block i 0 0 inside),
        ),
      ),
)

pub alloc_lem :
    (libc : Libc) (capacity : ℕ) {head c : List ℕ}
    → libc.malloc 32 ≡ some head
    → libc.malloc (capacity + 10) ≡ some c
    → capacity + 10 < u64
    → alloc libc capacity ≡ ok (record { block = c; offset = 0; len = 0; capacity = capacity + 10 })
unfolding alloc
alloc_lem libc capacity head e bound =
    let whole : (capacity + 10) % u64 ≡ capacity + 10 = omega arith in
    rw (head, alloc) (rw (whole, e))

-- Where `malloc` finds memory, `aoStrDupRaw` gives a buffer with the text `s`, a NUL behind it and
-- the capacity it is told, in a block that is ten bytes longer.
pub dup_raw-text :
    {libc : Libc}
    → IsLibc libc
    → ((n : ℕ) → (b : List ℕ) × (libc.malloc n ≡ some b))
    → (s : List ℕ) (capacity : ℕ) → length s ≤ capacity
    → capacity + 10 < u64
    → Returns
        (dup_raw libc s capacity)
        λ b. IsBuffer b × IsTerminated b × (text b ≡ s) × (b.capacity ≡ capacity) × (b.offset ≡ 0)
unfolding dup_raw set_len set_capacity
dup_raw-text {libc} lawful finds s capacity fits bound =
    let (_, head) = finds 32 in
    let (c, e) = finds (capacity + 10) in
    let size : length c ≡ capacity + 10 = lawful.length-malloc (capacity + 10) e in
    let (ys, run, (len, front)) = write_block-lem c 0 s (omega arith) in
    let inside : length s < length ys = omega arith in
    let z : 0 + length s ≡ length s = omega arith in
    (
      record { block = set ys (length s) 0; offset = 0; len = length s; capacity = capacity },
      rw (alloc_lem libc capacity head e bound, ◌>>=◌, run, put-set ys (length s) 0 inside),
      (
        record {
          backed = rw length-set (omega arith);
          slack = rw length-set (omega arith);
          within = fits;
        },
        at-get_or (set ys (length s) 0) (length s) 0 (rw length-set inside)
            ∙ ap ok (get_or-set_self ys (length s) 0 0 inside),
        take-set_self ys (length s) 0 ∙ rw z at front,
        refl,
        refl,
      ),
    )
