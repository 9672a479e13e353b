-- ===== src/AoStr/Search/First.antt =====
-- The first occurrence of a pattern in a text, tried place by place, and what makes it one.
use mathlib.Core.Option.{map}
use dictionary.AoStr.Search.Border.{Occurs, folded}
use dictionary.Base.{
  ℕ, zero, suc, ◌+◌, ◌≤◌, ◌<◌, ◌≡◌, refl, Bool, true, false, ◌&&◌, Option, none, some, List, [],
  ◌∷◌, length, ◌==◌, eq_of_==, ==_refl, if◌then◌else◌, Bool-cases, inl, inr, arith,
}

module _ (fold : ℕ → ℕ) where
  abbrev pub starts : List ℕ → List ℕ → Bool
  starts [] text = true
  starts (p ∷ ps) [] = false
  starts (p ∷ ps) (c ∷ cs) = fold p == fold c && starts ps cs

  abbrev pub first_occurrence : List ℕ → List ℕ → Option ℕ
  first_occurrence pattern [] = none
  first_occurrence pattern (c ∷ cs) =
      if starts pattern (c ∷ cs) then some 0 else map suc (first_occurrence pattern cs)

  starts-Occurs :
      (pattern text : List ℕ)
      → starts pattern text ≡ true
      → (length pattern ≤ length text)
        × Occurs (folded fold pattern) (folded fold text) 0 (length pattern)
  starts-Occurs [] text h = (omega arith, λ i lt. absurd (omega arith))
  starts-Occurs (p ∷ ps) [] h = absurd (ground arith)
  starts-Occurs (p ∷ ps) (c ∷ cs) h =
      let first : (fold p == fold c) ≡ true = ground arith in
      let (inside, rest) = starts-Occurs ps cs (ground arith) in (omega arith, go first rest)
    where
      go :
          (fold p == fold c) ≡ true
          → Occurs (folded fold ps) (folded fold cs) 0 (length ps)
          → Occurs (folded fold (p ∷ ps)) (folded fold (c ∷ cs)) 0 (suc (length ps))
      go first rest zero lt = eq_of_== (fold p) (fold c) first
      go first rest (suc i) lt =
          let e : 0 + suc i ≡ suc (0 + i) = omega arith in rw e (rest i (omega arith))

  Occurs-starts :
      (pattern text : List ℕ)
      → length pattern ≤ length text
      → Occurs (folded fold pattern) (folded fold text) 0 (length pattern)
      → starts pattern text ≡ true
  Occurs-starts [] text h occurs = refl
  Occurs-starts (p ∷ ps) [] h occurs = absurd (omega arith)
  Occurs-starts (p ∷ ps) (c ∷ cs) h occurs =
      let same : fold p ≡ fold c = occurs 0 (omega arith) in
      rw (same, ==_refl)
        (Occurs-starts ps cs (omega arith) (λ i lt.
          let e : 0 + suc i ≡ suc (0 + i) = omega arith in rw e at (occurs (suc i) (omega arith))))

  -- A match in a text without its first byte, and in the text
  Occurs-tail :
      (P : ℕ → ℕ) (c : ℕ) (cs : List ℕ) (s m : ℕ)
      → Occurs P (folded fold (c ∷ cs)) (suc s) m
      → Occurs P (folded fold cs) s m
  Occurs-tail P c cs s m occurs i lt =
      let e : suc s + i ≡ suc (s + i) = omega arith in rw e at (occurs i lt)

  Occurs-cons :
      (P : ℕ → ℕ) (c : ℕ) (cs : List ℕ) (s m : ℕ)
      → Occurs P (folded fold cs) s m
      → Occurs P (folded fold (c ∷ cs)) (suc s) m
  Occurs-cons P c cs s m occurs i lt =
      let e : suc s + i ≡ suc (s + i) = omega arith in rw e (occurs i lt)

  module _ (pattern : List ℕ) (filled : 0 < length pattern) where
    abbrev P : ℕ → ℕ
    P = folded fold pattern

    abbrev m : ℕ
    m = length pattern

    pub first_occurrence-some :
        (text : List ℕ) (s : ℕ)
        → s + m ≤ length text
        → Occurs P (folded fold text) s m
        → ((t : ℕ) → t < s → ¬ Occurs P (folded fold text) t m)
        → first_occurrence pattern text ≡ some s
    first_occurrence-some [] s inside occurs earlier = absurd (omega arith)
    first_occurrence-some (c ∷ cs) zero inside occurs earlier =
        rw (Occurs-starts pattern (c ∷ cs) (omega arith) occurs)
    first_occurrence-some (c ∷ cs) (suc s) inside occurs earlier =
        elim (Bool-cases (starts pattern (c ∷ cs))) [
          | inl here ↦ absurd (earlier 0 (omega arith) (starts-Occurs pattern (c ∷ cs) here).1)
          | inr later ↦ rw (
            later,
            first_occurrence-some cs s (omega arith) (Occurs-tail P c cs s m occurs)
                (λ t lt found. earlier (suc t) (omega arith) (Occurs-cons P c cs t m found)),
          )
        ]

    pub first_occurrence-none :
        (text : List ℕ)
        → ((s : ℕ) → s + m ≤ length text → ¬ Occurs P (folded fold text) s m)
        → first_occurrence pattern text ≡ none
    first_occurrence-none [] never = refl
    first_occurrence-none (c ∷ cs) never = elim (Bool-cases (starts pattern (c ∷ cs))) [
      | inl here ↦
          let (inside, occurs) = starts-Occurs pattern (c ∷ cs) here in
          absurd (never 0 (omega arith) occurs)
      | inr later ↦ rw (
        later,
        first_occurrence-none cs
            (λ s h found. never (suc s) (omega arith) (Occurs-cons P c cs s m found)),
      )
    ]
