-- ===== src/AoStr/Escape/Written.antt =====
-- How a text is written with escapes, after JSON and the C library's `%04x`, and that the code of
-- aoStrEscapeString for one byte does so.
use Prim.Native.Nat.{◌/◌, ◌%◌}
use dictionary.Base.Text.{codes, bytes_eq, bytes_eq_iff}
use dictionary.AoStr.Escape.{is_plain, short_escape, unsigned, padded_hex}
use dictionary.Base.{
  ℕ, zero, suc, ◌<◌, ◌≡◌, refl, Bool, true, false, ◌&&◌, Option, none, some, List, [], ◌∷◌, ◌++◌,
  get_or, if◌then◌else◌, ◌==◌, ltb, arith, Bool-cases, inl, inr, All,
}

-- The bytes with an escape of two characters: backspace, tab, line feed, vertical tab, form feed,
-- carriage return, quote and backslash, with the second character
abbrev pub letters : List (ℕ × ℕ)
letters =
    (8, 98) ∷ (9, 116) ∷ (10, 110) ∷ (11, 118) ∷ (12, 102) ∷ (13, 114) ∷ (34, 34) ∷ (92, 92) ∷ []

abbrev pub letter : ℕ → List (ℕ × ℕ) → Option ℕ
letter c [] = none
letter c ((byte, e) ∷ rest) = if c == byte then some e else letter c rest

abbrev pub hex_digit : ℕ → ℕ
hex_digit d = get_or (codes "0123456789abcdef") d 0

-- A byte: two characters for one of the table, itself in the rest of printable ASCII and for DEL, and
-- otherwise its value as `%04x` prints it, sign-extended to 32 bits where it is 128 or more.
abbrev pub written : ℕ → List ℕ
written c = elim (letter c letters) [
  | some e ↦ 92 ∷ e ∷ []
  | none ↦
      if ltb c 32
      then codes "\\u00" ++ hex_digit (c / 16) ∷ hex_digit (c % 16) ∷ []
      else if ltb c 128
      then c ∷ []
      else codes "\\uffffff" ++ hex_digit (c / 16) ∷ hex_digit (c % 16) ∷ []
]

abbrev pub written_text : List ℕ → List ℕ
written_text [] = []
written_text (c ∷ cs) = written c ++ written_text cs

-- What the code writes for one byte
abbrev pub escaped_rest : ℕ → Option ℕ → List ℕ
escaped_rest c (some e) = e ∷ []
escaped_rest c none = b'u' ∷ padded_hex (unsigned c)

abbrev pub escaped : ℕ → List ℕ
escaped c = elim (is_plain c) [ true ↦ c ∷ [] | false ↦ 92 ∷ escaped_rest c (short_escape c) ]

abbrev pub escaped_text : List ℕ → List ℕ
escaped_text [] = []
escaped_text (c ∷ cs) = escaped c ++ escaped_text cs

-- All bytes below `n` are written as they should be.
agree : ℕ → Bool
agree zero = true
agree (suc n) = bytes_eq (escaped n) (written n) && agree n

agree_bytes : agree 256 ≡ true
unfolding agree bytes_eq
agree_bytes = refl

agree-below : (n c : ℕ) → agree n ≡ true → c < n → escaped c ≡ written c
unfolding agree
agree-below zero c all below = absurd (omega arith)
agree-below (suc n) c all below = elim (Bool-cases (c == n)) [
  | inl e ↦
      let same : c ≡ n = ground arith in
      let here : bytes_eq (escaped n) (written n) ≡ true = ground arith in
      rw same ((bytes_eq_iff (escaped n) (written n)).0 here)
  | inr other ↦ agree-below n c (ground arith) (ground arith)
]

-- A text without NUL, of bytes
abbrev pub IsText : List ℕ → Type 0
IsText s = All (λ c. ((c == 0) ≡ false) × (c < 256)) s

pub escaped_text-written : (s : List ℕ) → IsText s → escaped_text s ≡ written_text s
escaped_text-written [] is = refl
escaped_text-written (c ∷ s) is =
    rw (agree-below 256 c agree_bytes is.0.1, escaped_text-written s is.1)

pub IsText-filled : (s : List ℕ) → IsText s → All (λ c. (c == 0) ≡ false) s
IsText-filled [] is = tt
IsText-filled (c ∷ s) is = (is.0.0, IsText-filled s is.1)
