-- ===== src/AoStr/Escape/Text.antt =====
-- The text that aoStrEscapeString gives.
use Prim.Native.Nat.{◌*◌, ◌/◌, ◌%◌}
use mathlib.Core.List.{append-nil}
use dictionary.AoStr.{AoStr, Libc, u64}
use dictionary.AoStr.Append.{IsLibc, Finds, IsBuffer, text}
use dictionary.AoStr.Edit.{alloc_lem}
use dictionary.Base.Text.{codes}
use dictionary.AoStr.Escape.{
  is_plain, short_escape, unsigned, hex_digits, padded_hex, escape_char, escape_loop, escape_string,
}
use dictionary.AoStr.Escape.Written.{
  escaped, escaped_text, written_text, IsText, IsText-filled, escaped_text-written,
}
use dictionary.AoStr.Escape.Grow.{IsGrown, append-IsGrown, put_char-IsGrown, cat_printf-IsGrown}
use dictionary.Base.{
  ℕ, zero, suc, ◌+◌, ◌-◌, ◌≤◌, ◌<◌, ◌≡◌, refl, sym, ◌∙◌, false, some, List, [], ◌∷◌, ◌++◌, ◌>>=◌,
  Returns, length, length-append, replicate, length-replicate, All, All-append, ltb, if◌then◌else◌,
  ◌==◌, Bool-cases, Option-cases, inl, inr, arith,
}

length-hex_digits : (f n : ℕ) (rest : List ℕ) → length (hex_digits f n rest) ≤ f + length rest
length-hex_digits zero n rest = omega arith
length-hex_digits (suc f) n rest =
    let digit = if ltb (n % 16) 10 then 48 + n % 16 else 87 + n % 16 in
    let more = length-hex_digits f (n / 16) (digit ∷ rest) in
    elim (Bool-cases (ltb n 16)) [
      | inl last ↦ rw (hex_digits, last) (omega arith)
      | inr further ↦ rw (hex_digits, further) (omega (arith, more))
    ]

length-padded_hex : (n : ℕ) → length (padded_hex n) ≤ 12
length-padded_hex n =
    let digits = hex_digits 8 n [] in
    let zeros = length-replicate {A = ℕ} (4 - length digits) b'0' in
    omega (
      arith,
      length-hex_digits 8 n [],
      zeros,
      length-append (replicate (4 - length digits) b'0') digits,
    )

-- No control character and no byte beyond ASCII
abbrev pub IsPrintable : List ℕ → Type 0
IsPrintable s = All (λ c. (31 < c) × (c < 128)) s

hex_digits-IsPrintable :
    (f n : ℕ) (rest : List ℕ) → IsPrintable rest → IsPrintable (hex_digits f n rest)
hex_digits-IsPrintable zero n rest printable = printable
hex_digits-IsPrintable (suc f) n rest printable =
    let digit = if ltb (n % 16) 10 then 48 + n % 16 else 87 + n % 16 in
    let here : (31 < digit) × (digit < 128) = (ground arith, ground arith) in
    let more = hex_digits-IsPrintable f (n / 16) (digit ∷ rest) (here, printable) in
    elim (Bool-cases (ltb n 16)) [
      | inl last ↦ rw (hex_digits, last) (here, printable)
      | inr further ↦ rw (hex_digits, further) more
    ]

replicate-IsPrintable : (n : ℕ) → IsPrintable (replicate n b'0')
replicate-IsPrintable zero = tt
replicate-IsPrintable (suc n) = ((omega arith, omega arith), replicate-IsPrintable n)

padded_hex-IsPrintable : (n : ℕ) → IsPrintable (padded_hex n)
padded_hex-IsPrintable n =
    let digits = hex_digits 8 n [] in
    All-append (λ c. (31 < c) × (c < 128)) (replicate (4 - length digits) b'0') digits
      (replicate-IsPrintable (4 - length digits)) (hex_digits-IsPrintable 8 n [] tt)

short_escape-IsPrintable : (c e : ℕ) → short_escape c ≡ some e → (31 < e) × (e < 128)
short_escape-IsPrintable c e h = (ground arith, ground arith)

escaped-IsPrintable : (c : ℕ) → IsPrintable (escaped c)
escaped-IsPrintable c = elim (Bool-cases (is_plain c)) [
  | inl plain ↦ rw (escaped, plain) ((ground arith, ground arith), tt)
  | inr special ↦
      rw (escaped, special)
        (
          (omega arith, omega arith),
          elim (Option-cases (short_escape c)) [
            | inl long ↦ rw long ((omega arith, omega arith), padded_hex-IsPrintable (unsigned c))
            | inr (e, short) ↦ rw short (short_escape-IsPrintable c e short, tt)
          ],
        )
]

escaped_text-IsPrintable : (s : List ℕ) → IsPrintable (escaped_text s)
escaped_text-IsPrintable [] = tt
escaped_text-IsPrintable (c ∷ cs) =
    All-append (λ c. (31 < c) × (c < 128)) (escaped c) (escaped_text cs) (escaped-IsPrintable c)
      (escaped_text-IsPrintable cs)

module _ {libc : Libc} (lawful : IsLibc libc) (finds : Finds libc)
    (mallocs : (n : ℕ) → (b : List ℕ) × (libc.malloc n ≡ some b)) where
  escape_char-IsGrown :
      {buf : AoStr}
      → IsBuffer buf
      → buf.capacity + 512 < u64
      → (c : ℕ) → Returns (escape_char libc buf c) (IsGrown buf (escaped c) 512)
  unfolding escape_char
  escape_char-IsGrown {buf} is bound c = elim (Bool-cases (is_plain c)) [
    | inl plain ↦
        let (b, run, g) = put_char-IsGrown lawful finds is (omega arith) c in
        (
          b,
          rw (escape_char, plain) run,
          rw (escaped, plain)
              (record { is = g.is; appended = g.appended; capacity = omega (arith, g.capacity) }),
        )
    | inr special ↦
        let (b, run, g) = put_char-IsGrown lawful finds is (omega arith) 92 in
        elim (Option-cases (short_escape c)) [
          | inr (e, short) ↦
              let (b', run', g') =
                put_char-IsGrown lawful finds g.is (omega (arith, g.capacity)) e in
              (
                b',
                rw (escape_char, special, run, ◌>>=◌) (rw short run'),
                rw (escaped, special) (rw short (append-IsGrown g g')),
              )
          | inl long ↦
              let wide = length-padded_hex (unsigned c) in
              let (b', run', g') =
                cat_printf-IsGrown lawful finds g.is (omega (arith, g.capacity)) mallocs
                  (codes "u%04x") (b'u' ∷ padded_hex (unsigned c)) (omega arith) in
              (
                b',
                rw (escape_char, special, run, ◌>>=◌) (rw long run'),
                rw (escaped, special) (rw long (append-IsGrown g g')),
              )
        ]
  ]

  escape_loop-IsGrown :
      (s rest : List ℕ) {buf : AoStr}
      → IsBuffer buf
      → All (λ c. (c == 0) ≡ false) s
      → buf.capacity + (512 * length s + 512) < u64
      → Returns
          (escape_loop libc buf (s ++ 0 ∷ rest))
          (IsGrown buf (escaped_text s) (512 * length s))
  unfolding escape_loop
  escape_loop-IsGrown [] rest {buf} is filled bound = (
    buf,
    refl,
    record { is = is; appended = sym (append-nil (text buf)); capacity = omega arith },
  )
  escape_loop-IsGrown (c ∷ s) rest {buf} is filled bound =
      let (b, run, g) = escape_char-IsGrown is (omega arith) c in
      let (b', run', g') =
        escape_loop-IsGrown s rest {buf = b} g.is filled.1 (omega (arith, g.capacity)) in
      let joined = append-IsGrown g g' in
      (
        b',
        rw (escape_loop, filled.0, run, ◌>>=◌) run',
        record {
          is = joined.is;
          appended = joined.appended;
          capacity = omega (arith, joined.capacity);
        },
      )

  -- Where the allocator finds memory and 512 bytes for each byte of the text, with the capacity and 522
  -- more, are less than 2^64, on a buffer whose block holds the bytes `s`, none of them NUL, and a NUL
  -- behind them: `aoStrEscapeString` does not fault, its loop ends, and it returns a well-formed string
  -- of the bytes of `s`, each written as JSON has it, but for the vertical tab, which is written \v, and
  -- a byte of 128 or more, which is written with the eight digits of its sign extension; there is no
  -- control character in it but DEL and no byte beyond ASCII.
  pub escape_string-written_text :
      (buf : AoStr) (s rest : List ℕ)
      → buf.block ≡ s ++ 0 ∷ rest
      → IsText s
      → buf.capacity + (512 * length s + 522) < u64
      → Returns
          (escape_string libc (some buf))
          (λ b. IsBuffer b × (text b ≡ written_text s) × IsPrintable (text b))
  unfolding escape_string
  escape_string-written_text buf s rest is_block is_text bound =
      let (head, made) = mallocs 32 in
      let (block, made') = mallocs (buf.capacity + 10) in
      let size = lawful.length-malloc (buf.capacity + 10) made' in
      let started = alloc_lem libc buf.capacity made made' (omega arith) in
      let out : AoStr = record {
        block = block;
        offset = 0;
        len = 0;
        capacity = buf.capacity + 10;
      } in
      let is : IsBuffer out = record {
        backed = omega arith;
        slack = omega arith;
        within = omega arith;
      } in
      let (b, run, g) =
        escape_loop-IsGrown s rest {buf = out} is (IsText-filled s is_text) (omega arith) in
      (
        b,
        rw (started, ◌>>=◌) (rw is_block run),
        (
          g.is,
          g.appended ∙ escaped_text-written s is_text,
          rw (g.appended) (escaped_text-IsPrintable s),
        ),
      )
