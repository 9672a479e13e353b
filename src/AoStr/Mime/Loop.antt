-- ===== src/AoStr/Mime/Loop.antt =====
-- The decoding loop reads ahead of where it writes: what it makes of a block.
use mathlib.Core.List.{append_assoc, append-nil}
use mathlib.Core.Path.{subst}
use dictionary.Base.Block.{put-append, drop-append}
use dictionary.AoStr.Mime.{decode_loop, hex_to_int, joined_digits}
use dictionary.Base.{
  ℕ, zero, suc, ◌+◌, ◌<◌, ◌≡◌, ◌⊎◌, refl, sym, ap, ◌∙◌, true, false, Option, none, some, List, [],
  ◌∷◌, ◌++◌, ok, ◌>>=◌, at, put, at-drop, drop, drop_next, length, length-append, All, ◌==◌,
  eq_of_==, Bool-cases, Option-cases, inl, inr, arith,
}

-- The byte that two hexadecimal digits stand for
abbrev pub byte_of : ℕ → ℕ → Option ℕ
byte_of h l = joined_digits (hex_to_int h) (hex_to_int l)

-- The Q encoding undone: an equals sign with two digits is a byte, all else stands for itself.
abbrev pub decode : List ℕ → List ℕ
decode [] = []
decode (c ∷ []) = c ∷ []
decode (c ∷ h ∷ []) = c ∷ decode (h ∷ [])
decode (c ∷ h ∷ l ∷ rest) =
    let literal = c ∷ decode (h ∷ l ∷ rest) in
    let escaped = decode rest in
    elim (c == b'=') [
      | true ↦ elim (byte_of h l) [ some v ↦ v ∷ escaped | none ↦ literal ]
      | false ↦ literal
    ]

pub decode_escape :
    (h l v : ℕ) (rest : List ℕ)
    → byte_of h l ≡ some v
    → decode (b'=' ∷ h ∷ l ∷ rest) ≡ v ∷ decode rest
decode_escape h l v rest e = rw (decode, e)

decode_literal :
    (c h l : ℕ) (rest : List ℕ)
    → ((c == b'=') ≡ false) ⊎ (byte_of h l ≡ none)
    → decode (c ∷ h ∷ l ∷ rest) ≡ c ∷ decode (h ∷ l ∷ rest)
decode_literal c h l rest literal = elim (Bool-cases (c == b'=')) [
  | inr other ↦ rw (decode, other)
  | inl equals ↦ elim literal [
    | inl other ↦ absurd (ground (arith, equals, other))
    | inr digits ↦ rw (decode, equals) (rw digits)
  ]
]

-- A block in three parts: what is written, what was read and may be overwritten, what is to be read.
abbrev parts : List ℕ → List ℕ → List ℕ → List ℕ
parts out gap rest = out ++ (gap ++ rest)

drop-parts : (out gap rest : List ℕ) → drop (length out + length gap) (parts out gap rest) ≡ rest
drop-parts out gap rest =
    let e = append_assoc out gap rest in
    let l = length-append out gap in rw (sym e, sym l) (drop-append (out ++ gap) rest)

-- What is read makes room for one byte at least.
write_parts :
    (out gap : List ℕ) (k : ℕ) (ks rest : List ℕ) (v : ℕ)
    → (gs : List ℕ) × (length gs ≡ length gap + length ks)
      × (put (parts out gap (k ∷ ks ++ rest)) (length out) v ≡ ok (parts (out ++ v ∷ []) gs rest))
write_parts out [] k ks rest v = (
  ks,
  omega arith,
  put-append out k (ks ++ rest) v ∙ ap ok (sym (append_assoc out (v ∷ []) (ks ++ rest))),
)
write_parts out (g ∷ gap) k ks rest v =
    let longer = length-append gap (k ∷ ks) in
    (
      gap ++ k ∷ ks,
      omega arith,
      put-append out g (gap ++ (k ∷ ks ++ rest)) v
          ∙ ap (λ r. ok (out ++ v ∷ r)) (sym (append_assoc gap (k ∷ ks) rest))
          ∙ ap ok (sym (append_assoc out (v ∷ []) ((gap ++ k ∷ ks) ++ rest))),
    )

module _ (t : ℕ) (tail : List ℕ) where
  -- The body that is left, the NUL behind it and what follows
  abbrev ended : List ℕ → List ℕ
  ended rest = rest ++ 0 ∷ t ∷ tail

  -- The loop decodes what is left behind what is written.
  abbrev pub IsDecoded : ℕ → List ℕ → List ℕ → List ℕ → Type 0
  IsDecoded fuel rest out gap =
      (gs : List ℕ) × (decode_loop fuel (parts out gap (ended rest)) (length out + length gap)
          (length out)
        ≡ ok (parts (out ++ decode rest) gs (0 ∷ t ∷ tail), length (out ++ decode rest)))

  reads :
      (out gap : List ℕ) (c h l : ℕ) (s : List ℕ)
      → (at (parts out gap (c ∷ h ∷ l ∷ s)) (length out + length gap) ≡ ok c)
        × (at (parts out gap (c ∷ h ∷ l ∷ s)) (length out + length gap + 1) ≡ ok h)
        × (at (parts out gap (c ∷ h ∷ l ∷ s)) (length out + length gap + 2) ≡ ok l)
  reads out gap c h l s =
      let block = parts out gap (c ∷ h ∷ l ∷ s) in
      let i = length out + length gap in
      let e0 = drop-parts out gap (c ∷ h ∷ l ∷ s) in
      let e1 = drop_next block i c (h ∷ l ∷ s) e0 in
      let e2 = drop_next block (i + 1) h (l ∷ s) e1 in
      let two : i + 2 ≡ i + 1 + 1 = omega arith in
      (
        at-drop block i c (h ∷ l ∷ s) e0,
        at-drop block (i + 1) h (l ∷ s) e1,
        rw two (at-drop block (i + 1 + 1) l s e2),
      )

  -- One round that takes a byte for itself
  literal_round :
      (fuel : ℕ) (c h l : ℕ) (s out gap : List ℕ)
      → (c == 0) ≡ false
      → ((c == b'=') ≡ false) ⊎ (byte_of h l ≡ none)
      → (gs : List ℕ) × (decode_loop
            (suc fuel)
            (parts out gap (c ∷ h ∷ l ∷ s))
            (length out + length gap)
            (length out)
          ≡ decode_loop fuel
              (parts (out ++ c ∷ []) gs (h ∷ l ∷ s))
              (length (out ++ c ∷ []) + length gs)
              (length (out ++ c ∷ [])))
  unfolding decode_loop
  literal_round fuel c h l s out gap nonzero literal =
      let (r0, r1, r2) = reads out gap c h l s in
      let (gs, size, written) = write_parts out gap c [] (h ∷ l ∷ s) c in
      let longer : length (out ++ c ∷ []) ≡ length out + 1 = length-append out (c ∷ []) in
      let next : length out + length gap + 1 ≡ length out + 1 + length gs = omega arith in
      (
        gs,
        rw longer (elim (Bool-cases (c == b'=')) [
          | inr other ↦ rw (decode_loop, r0, ◌>>=◌) (rw (nonzero, other, written, ◌>>=◌) (rw next))
          | inl equals ↦ elim literal [
            | inl other ↦ absurd (ground (arith, equals, other))
            | inr digits ↦
                rw (decode_loop, r0, ◌>>=◌)
                  (rw (nonzero, equals, r1, r2, digits, written, ◌>>=◌) (rw next))
          ]
        ]),
      )

  -- One round that takes a byte for two digits
  escape_round :
      (fuel : ℕ) (h l v : ℕ) (s out gap : List ℕ)
      → byte_of h l ≡ some v
      → (gs : List ℕ) × (decode_loop
            (suc fuel)
            (parts out gap (b'=' ∷ h ∷ l ∷ s))
            (length out + length gap)
            (length out)
          ≡ decode_loop fuel
              (parts (out ++ v ∷ []) gs s)
              (length (out ++ v ∷ []) + length gs)
              (length (out ++ v ∷ [])))
  unfolding decode_loop
  escape_round fuel h l v s out gap digits =
      let (r0, r1, r2) = reads out gap b'=' h l s in
      let (gs, size, written) = write_parts out gap b'=' (h ∷ l ∷ []) s v in
      let longer : length (out ++ v ∷ []) ≡ length out + 1 = length-append out (v ∷ []) in
      let next : length out + length gap + 3 ≡ length out + 1 + length gs = omega arith in
      (gs, rw longer (rw (decode_loop, r0, ◌>>=◌) (rw (r1, r2, digits, written, ◌>>=◌) (rw next))))

  literal_case :
      (fuel : ℕ) (c h l : ℕ) (s rest out gap : List ℕ)
      → (c == 0) ≡ false
      → ((c == b'=') ≡ false) ⊎ (byte_of h l ≡ none)
      → ended rest ≡ h ∷ l ∷ s
      → decode (c ∷ rest) ≡ c ∷ decode rest
      → ((out gap : List ℕ) → IsDecoded fuel rest out gap)
      → IsDecoded (suc fuel) (c ∷ rest) out gap
  literal_case fuel c h l s rest out gap nonzero literal is_rest is_decoded go =
      let (gs, round) = literal_round fuel c h l s out gap nonzero literal in
      let (gs', run) = go (out ++ c ∷ []) gs in
      let all = append_assoc out (c ∷ []) (decode rest) in
      (gs', rw (is_rest, is_decoded) (round ∙ rw (is_rest, all) at run))

  escape_case :
      (fuel : ℕ) (h l v : ℕ) (rest out gap : List ℕ)
      → byte_of h l ≡ some v
      → ((out gap : List ℕ) → IsDecoded fuel rest out gap)
      → IsDecoded (suc fuel) (b'=' ∷ h ∷ l ∷ rest) out gap
  escape_case fuel h l v rest out gap digits go =
      let (gs, round) = escape_round fuel h l v (ended rest) out gap digits in
      let (gs', run) = go (out ++ v ∷ []) gs in
      let all = append_assoc out (v ∷ []) (decode rest) in
      (gs', rw (decode_escape h l v rest digits) (round ∙ rw all at run))

  end_case : (fuel : ℕ) (out gap : List ℕ) → IsDecoded (suc fuel) [] out gap
  unfolding decode_loop
  end_case fuel out gap =
      let block = parts out gap (0 ∷ t ∷ tail) in
      let read =
        at-drop block (length out + length gap) 0 (t ∷ tail) (drop-parts out gap (0 ∷ t ∷ tail)) in
      (gap, rw (decode_loop, read, append-nil, ◌>>=◌))

  joined_digits-none : (o : Option ℕ) → joined_digits o none ≡ none
  joined_digits-none none = refl
  joined_digits-none (some hi) = refl

  pub decode_loop-decode :
      (fuel : ℕ) (rest out gap : List ℕ)
      → length rest < fuel
      → All (λ c. (c == 0) ≡ false) rest
      → IsDecoded fuel rest out gap
  unfolding hex_to_int
  decode_loop-decode zero rest out gap enough text = absurd (omega arith)
  decode_loop-decode (suc fuel) [] out gap enough text = end_case fuel out gap
  decode_loop-decode (suc fuel) (c ∷ []) out gap enough text =
      literal_case fuel c 0 t tail [] out gap text.0 (inr refl) refl refl
        (λ out gap. decode_loop-decode fuel [] out gap (omega arith) tt)
  decode_loop-decode (suc fuel) (c ∷ h ∷ []) out gap enough text =
      literal_case fuel c h 0 (t ∷ tail) (h ∷ []) out gap text.0
        (inr (joined_digits-none (hex_to_int h))) refl refl
        (λ out gap. decode_loop-decode fuel (h ∷ []) out gap (omega arith) text.1)
  decode_loop-decode (suc fuel) (c ∷ h ∷ l ∷ rest) out gap enough text =
      elim (Bool-cases (c == b'=')) [
        | inr other ↦
            literal_case fuel c h l (ended rest) (h ∷ l ∷ rest) out gap text.0 (inl other) refl
              (decode_literal c h l rest (inl other))
              (λ out gap. decode_loop-decode fuel (h ∷ l ∷ rest) out gap (omega arith) text.1)
        | inl equals ↦ elim (Option-cases (byte_of h l)) [
          | inl none_of ↦
              literal_case fuel c h l (ended rest) (h ∷ l ∷ rest) out gap text.0 (inr none_of) refl
                (decode_literal c h l rest (inr none_of))
                (λ out gap. decode_loop-decode fuel (h ∷ l ∷ rest) out gap (omega arith) text.1)
          | inr (v, digits) ↦
              subst (λ c. IsDecoded (suc fuel) (c ∷ h ∷ l ∷ rest) out gap)
                (sym (eq_of_== c b'=' equals))
                (escape_case fuel h l v rest out gap digits
                  (λ out gap. decode_loop-decode fuel rest out gap (omega arith) text.1.1.1))
        ]
      ]
