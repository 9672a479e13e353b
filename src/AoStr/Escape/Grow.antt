-- ===== src/AoStr/Escape/Grow.antt =====
-- How far the capacity of a buffer grows with what is appended.
use dictionary.AoStr.{
  AoStr, Libc, u32, u64, extend_buffer, extend_buffer_if_needed, put_char, cat_len,
}
use dictionary.AoStr.Append.{
  IsLibc, Finds, IsBuffer, text, growth, growth-u32, put_char-append, cat_len-append,
}
use dictionary.AoStr.Escape.{buffer_len, cat_printf}
use mathlib.Core.List.{append_assoc}
use dictionary.Base.Block.{write_block}
use dictionary.Base.{
  ℕ, ◌+◌, ◌-◌, ◌%◌, ◌≤◌, ◌<◌, ◌≡◌, ap, ◌∙◌, true, some, List, [], ◌∷◌, ◌++◌, Run, ok, fault,
  >>=-eq-ok, Returns, put, length, ltb, leb, Bool-cases, Option-cases, inl, inr, arith,
}

-- The text has `d` behind it, and the capacity is at most `n` larger.
pub record IsGrown (buf : AoStr) (d : List ℕ) (n : ℕ) (b : AoStr) : Type 0 where
  pub is : IsBuffer b
  pub appended : text b ≡ text buf ++ d
  pub capacity : b.capacity ≤ buf.capacity + n

-- One append after another
pub append-IsGrown :
    {buf b b' : AoStr} {d d' : List ℕ} {n n' : ℕ}
    → IsGrown buf d n b
    → IsGrown b d' n' b'
    → IsGrown buf (d ++ d') (n + n') b'
append-IsGrown {buf} {b} {b'} {d} {d'} g g' = record {
  is = g'.is;
  appended = g'.appended ∙ ap (λ t. t ++ d') g.appended ∙ append_assoc (text buf) d d';
  capacity = omega (arith, g.capacity, g'.capacity);
}

abbrev capacity_of : Run AoStr → ℕ
capacity_of (ok b) = b.capacity
capacity_of fault = 0

module _ (libc : Libc) (buf : AoStr) where
  extend_buffer-capacity : (g : ℕ) → (extend_buffer libc buf g).1.capacity ≤ buf.capacity + g
  unfolding extend_buffer
  extend_buffer-capacity g =
      let n = (buf.capacity + g) % u64 in
      elim (Bool-cases (leb n buf.capacity)) [
        | inl large ↦ rw large (omega arith)
        | inr more ↦ elim (Option-cases (libc.realloc buf.block n)) [
          | inl e ↦ rw (more, e) (omega arith)
          | inr (c, e) ↦ rw (more, e) (omega arith)
        ]
      ]

  extend-capacity :
      (n : ℕ) → n < u32 → (extend_buffer_if_needed libc buf n).1.capacity ≤ buf.capacity + growth n
  unfolding extend_buffer_if_needed
  extend-capacity n small =
      let g = growth-u32 n small in
      elim (Bool-cases (leb buf.capacity ((buf.len + 1 + n) % u64))) [
        | inl tight ↦ rw (tight, g) (extend_buffer-capacity (growth n))
        | inr roomy ↦ rw roomy (omega arith)
      ]

  put_char-capacity :
      (c : ℕ) {b : AoStr} → put_char libc buf c ≡ ok b → b.capacity ≤ buf.capacity + 256
  unfolding put_char
  put_char-capacity c {b} run =
      let (data', _, run') = >>=-eq-ok (put _ _ c) _ run in
      let (data'', _, e) = >>=-eq-ok (put data' _ 0) _ run' in
      omega (arith, extend-capacity 100 (omega arith), ap capacity_of e)

  pub cat_len-capacity :
      (d : List ℕ) {b : AoStr}
      → length d < u32
      → cat_len libc buf d ≡ ok b
      → b.capacity ≤ buf.capacity + growth (length d)
  unfolding cat_len
  cat_len-capacity d {b} small run =
      let (data', _, run') = >>=-eq-ok (write_block _ _ d) _ run in
      let (data'', _, e) = >>=-eq-ok (put data' _ 0) _ run' in
      omega (arith, extend-capacity (length d) small, ap capacity_of e)

module _ {libc : Libc} (lawful : IsLibc libc) (finds : Finds libc) {buf : AoStr} (is : IsBuffer buf)
    (bound : buf.capacity + 256 < u64) where
  pub put_char-IsGrown : (c : ℕ) → Returns (put_char libc buf c) (IsGrown buf (c ∷ []) 256)
  put_char-IsGrown c =
      let (b, run, (is', _, _, e)) = put_char-append lawful finds is c bound in
      (b, run, record { is = is'; appended = e; capacity = put_char-capacity libc buf c run })

  buffer_len-le : (n : ℕ) → 512 ≤ buffer_len n
  buffer_len-le n = ground arith

  -- What fits the first buffer is appended by one call of `vsnprintf`.
  pub cat_printf-IsGrown :
      ((n : ℕ) → (b : List ℕ) × (libc.malloc n ≡ some b))
      → (fmt formatted : List ℕ) → length formatted < 256
      → Returns (cat_printf libc buf fmt formatted) (IsGrown buf formatted 256)
  unfolding cat_printf
  cat_printf-IsGrown mallocs fmt formatted short =
      let (tmp, made) = mallocs (buffer_len (length fmt)) in
      let wide = buffer_len-le (length fmt) in
      let fits : ltb (length formatted) (buffer_len (length fmt) - 1) ≡ true = ground arith in
      let g : growth (length formatted) ≡ 256 = ground arith in
      let (b, run, (is', _, _, e)) =
        cat_len-append lawful finds is formatted (omega arith) (omega arith)
          (omega (arith, is.within)) in
      (
        b,
        rw (cat_printf, made) (rw fits run),
        record {
          is = is';
          appended = e;
          capacity = omega (arith, cat_len-capacity libc buf formatted (omega arith) run);
        },
      )
