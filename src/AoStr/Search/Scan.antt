-- ===== src/AoStr/Search/Scan.antt =====
-- The loop of the search finds where the first match ends.
use dictionary.AoStr.{u64}
use dictionary.AoStr.Search.{match_loop}
use dictionary.AoStr.Search.Border.{
  IsMatch, IsLongest, step-IsLongest, IsTable, folded, fall_back-IsBest,
}
use dictionary.Base.{
  ℕ, zero, suc, ◌+◌, ◌%◌, ◌≤◌, ◌<◌, ◌≡◌, ◌⊎◌, refl, ap, Bool, true, false, Option, none, some, List,
  ◌>>=◌, Returns, at-get_or, get_or, length, ◌==◌, eq_of_==, if◌then◌else◌, Bool-cases, inl, inr,
  arith,
}

-- Among the first `stop` places: no match, or the first match ends at the place given.
abbrev pub IsFirst : (P T : ℕ → ℕ) → (m stop : ℕ) → Option ℕ → Type 0
IsFirst P T m stop none = (n : ℕ) → n ≤ stop → ¬ IsMatch P T 0 n m
IsFirst P T m stop (some e) =
    (e < stop) × IsMatch P T 0 (e + 1) m × ((n : ℕ) → n ≤ e → ¬ IsMatch P T 0 n m)

-- The first `stop` of `len` bytes come before a NUL or the end.
abbrev pub IsStop : List ℕ → ℕ → ℕ → Type 0
IsStop block len stop =
    (stop ≤ len)
    × ((j : ℕ) → j < stop → ¬ (get_or block j 0 ≡ 0))
    × ((stop ≡ len) ⊎ (get_or block stop 0 ≡ 0))

next_lem :
    (b : Bool) (q : ℕ) → q + 1 < u64 → (if b then (q + 1) % u64 else q) ≡ (if b then suc q else q)
next_lem true q bound = omega arith
next_lem false q bound = refl

next_le : (b : Bool) (q : ℕ) → (if b then suc q else q) ≤ q + 1
next_le true q = omega arith
next_le false q = omega arith

module _ (fold : ℕ → ℕ) (table pattern block : List ℕ) (stop len : ℕ) where
  abbrev m : ℕ
  m = length pattern

  abbrev P : ℕ → ℕ
  P = folded fold pattern

  abbrev T : ℕ → ℕ
  T = folded fold block

  module _ (is_stop : IsStop block len stop) (inside : len ≤ length block) (bound : m < u64)
      (size : length table ≡ m) (correct : IsTable fold pattern table m) where
    pub match_loop-IsFirst :
        (n i q : ℕ)
        → i + n ≡ len
        → i ≤ stop
        → q < m
        → IsLongest P T m 0 i q
        → ((n : ℕ) → n ≤ i → ¬ IsMatch P T 0 n m)
        → Returns (match_loop fold table pattern m block n i q) (IsFirst P T m stop)
    unfolding match_loop
    match_loop-IsFirst zero i q rounds before partial longest earlier =
        (none, refl, λ n h. earlier n (omega (arith, is_stop.0)))
    match_loop-IsFirst (suc n) i q rounds before partial longest earlier =
        let c = get_or block i 0 in
        let read = at-get_or block i 0 (omega arith) in
        elim (Bool-cases (c == 0)) [
          | inl ended ↦ (
            none,
            rw (match_loop, read, ◌>>=◌) (rw ended),
            λ n h. elim (Bool-cases (i == stop)) [
              | inl e ↦ earlier n (ground arith)
              | inr ne ↦ absurd (is_stop.1 i (ground arith) (eq_of_== c 0 ended))
            ],
          )
          | inr more ↦
              let going : i < stop = elim is_stop.2 [
                | inl e ↦ omega arith
                | inr nul ↦ elim (Bool-cases (i == stop)) [
                  | inl e ↦
                      absurd
                        (ground (arith, ap (λ j. get_or block j 0) (eq_of_== i stop e), nul, more))
                  | inr ne ↦ ground arith
                ]
              ] in
              let (q1, run, (found, best, end, le)) =
                fall_back-IsBest fold pattern table T q 0 i c q (omega arith) partial (omega arith)
                  (λ j lt. correct j (omega arith)) longest.0
                  (λ j lt match same. longest.1 j (omega arith) match) in
              let same = P q1 == fold c in
              let q2 = if same then suc q1 else q1 in
              let next = step-IsLongest P T m 0 i (fold c) q1 (omega arith) refl found best end in
              let bounded = next_le same q1 in
              let read' = at-get_or pattern q1 0 (omega arith) in
              let e = next_lem same q1 (omega arith) in
              elim (Bool-cases (q2 == m)) [
                | inl whole ↦ (
                  some i,
                  rw (match_loop, read, ◌>>=◌) (rw (more, run, read', ◌>>=◌) (rw e (rw whole))),
                  (going, rw (eq_of_== q2 m whole) at next.0, earlier),
                )
                | inr part ↦
                    let (r, run', first) =
                      match_loop-IsFirst n (i + 1) q2 (omega arith) (omega arith) (ground arith)
                        next
                        (λ k h match. elim (Bool-cases (k == i + 1)) [
                          | inl last ↦
                              let at_end = rw (eq_of_== k (i + 1) last) at match in
                              absurd (ground (arith, next.1 m (omega arith) at_end))
                          | inr ne ↦ earlier k (ground arith) match
                        ]) in
                    (
                      r,
                      rw (match_loop, read, ◌>>=◌)
                          (rw (more, run, read', ◌>>=◌) (rw e (rw part (rw e run')))),
                      first,
                    )
              ]
        ]
