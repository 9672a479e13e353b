-- ===== src/AoStr/Escape/Tests.antt =====
-- A quoted line and bytes beyond ASCII, escaped.
use dictionary.Base.Text.{codes}
use dictionary.AoStr.{AoStr}
use dictionary.AoStr.Append.{IsBuffer, text}
use dictionary.AoStr.Escape.{escape_string}
use dictionary.AoStr.Escape.Written.{written_text}
use dictionary.AoStr.Escape.Text.{IsPrintable, escape_string-written_text}
use dictionary.AoStr.Tests.{zeros, zeros-IsLibc, zeros-Finds}
use dictionary.Base.{
  ℕ, ◌+◌, ◌≡◌, refl, some, List, [], ◌∷◌, ◌++◌, Returns, length, replicate, arith,
}

abbrev buffer : List ℕ → AoStr
buffer s = record { block = s ++ 0 ∷ []; offset = 0; len = length s; capacity = length s + 1 }

line : written_text (b'"' ∷ 10 ∷ 1 ∷ b'a' ∷ []) ≡ codes "\\\"\\n\\u0001a"
line = refl

-- Two bytes of UTF-8: each becomes an escape of eight digits.
accent : written_text (195 ∷ 169 ∷ []) ≡ codes "\\uffffffc3\\uffffffa9"
accent = refl

escape_string-written_text_example :
    Returns
      (escape_string zeros (some (buffer (codes "a\"b"))))
      (λ b. IsBuffer b × (text b ≡ written_text (codes "a\"b")) × IsPrintable (text b))
escape_string-written_text_example =
    escape_string-written_text zeros-IsLibc zeros-Finds (λ n. (replicate n 0, refl))
      (buffer (codes "a\"b")) (codes "a\"b") [] refl
      ((refl, omega arith), ((refl, omega arith), ((refl, omega arith), tt))) (omega arith)
