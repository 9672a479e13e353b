-- ===== src/AoStr/Search/Border.antt =====
-- Matches of a pattern's beginnings in a text, both as functions of the place, and how the inner
-- loops move from one to the next.
use dictionary.Base.{
  ℕ, zero, suc, ◌+◌, ◌-◌, ◌≤◌, ◌<◌, ◌≡◌, ◌⊎◌, refl, sym, ap, ◌∙◌, false, List, ◌>>=◌, Returns,
  at-get_or, get_or, length, ◌==◌, if◌then◌else◌, eq_of_==, Bool-cases, inl, inr, arith,
}
use dictionary.AoStr.Search.{fall_back}

-- The first `k` places of `P` are those of `T` from `s` on.
abbrev pub Occurs : (P T : ℕ → ℕ) → ℕ → ℕ → Type 0
Occurs P T s k = (i : ℕ) → i < k → P i ≡ T (s + i)

-- Such a match of length `q` ends before the place `n`, and begins at `lo` or behind it.
abbrev pub IsMatch : (P T : ℕ → ℕ) → (lo n q : ℕ) → Type 0
IsMatch P T lo n q = (s : ℕ) × (lo ≤ s) × (s + q ≡ n) × Occurs P T s q

-- And none of length `m` at most is longer.
abbrev pub IsLongest : (P T : ℕ → ℕ) → (m lo n q : ℕ) → Type 0
IsLongest P T m lo n q = IsMatch P T lo n q × ((j : ℕ) → j ≤ m → IsMatch P T lo n j → j ≤ q)

-- Where the next place holds `x`: no match that can go on is longer than `q`.
abbrev pub IsBest : (P T : ℕ → ℕ) → (m lo n x q : ℕ) → Type 0
IsBest P T m lo n x q = (j : ℕ) → j < m → IsMatch P T lo n j → P j ≡ x → j ≤ q

module _ (P T : ℕ → ℕ) where
  -- A shorter match that ends where a longer one does matches inside the pattern, not at its start.
  pub border : (lo n q j : ℕ) → IsMatch P T lo n q → IsMatch P T lo n j → j < q → IsMatch P P 1 q j
  border lo n q j (s, above, e, occurs) (s', above', e', occurs') lt = (
    q - j,
    omega arith,
    omega arith,
    λ i h.
        let within : (q - j) + i < q = omega arith in
        let place : s' + i ≡ s + ((q - j) + i) = omega arith in
        occurs' i h ∙ ap T place ∙ sym (occurs ((q - j) + i) within),
  )

  pub border-IsMatch : (lo n q b : ℕ) → IsMatch P T lo n q → IsMatch P P 1 q b → IsMatch P T lo n b
  border-IsMatch lo n q b (s, above, e, occurs) (d, d_pos, e', inside) = (
    s + d,
    omega arith,
    omega arith,
    λ i h.
        let place : s + (d + i) ≡ s + d + i = omega arith in
        inside i h ∙ occurs (d + i) (omega arith) ∙ ap T place,
  )

  pub IsMatch-suc : (lo n j : ℕ) → IsMatch P T lo n j → P j ≡ T n → IsMatch P T lo (n + 1) (suc j)
  IsMatch-suc lo n j (s, above, e, occurs) same = (s, above, omega arith, go)
    where
      go : Occurs P T s (suc j)
      go i h = elim (Bool-cases (i == j)) [
        | inl is_j ↦
            let e' : i ≡ j = eq_of_== i j is_j in
            let place : n ≡ s + i = omega arith in ap P e' ∙ same ∙ ap T place
        | inr ne ↦ occurs i (ground arith)
      ]

  pub IsMatch-pred :
      (lo n j : ℕ) → IsMatch P T lo (n + 1) (suc j) → IsMatch P T lo n j × (P j ≡ T n)
  IsMatch-pred lo n j (s, above, e, occurs) =
      let place : s + j ≡ n = omega arith in
      ((s, above, place, λ i h. occurs i (omega arith)), occurs j (omega arith) ∙ ap T place)

  pub IsMatch-zero : (lo n : ℕ) → lo ≤ n → IsMatch P T lo n 0
  IsMatch-zero lo n h = (n, h, omega arith, λ i lt. absurd (omega arith))

  -- What the loops do after the inner one
  pub step-IsLongest :
      (m lo n x q : ℕ)
      → lo ≤ n
      → T n ≡ x
      → IsMatch P T lo n q
      → IsBest P T m lo n x q
      → (q ≡ 0) ⊎ (P q ≡ x)
      → IsLongest P T m lo (n + 1) (if P q == x then suc q else q)
  step-IsLongest m lo n x q from here found best stop = elim (Bool-cases (P q == x)) [
    | inl same ↦ rw same (IsMatch-suc lo n q found (eq_of_== (P q) x same ∙ sym here), longest)
    | inr other ↦ rw other (
        let none_left : q ≡ 0 = elim stop [
          | inl e ↦ e
          | inr e ↦ absurd (ground (arith, e, other))
        ] in
        (rw none_left (IsMatch-zero lo (n + 1) (omega arith)), shortest other none_left))
  ]
    where
      longest : (j : ℕ) → j ≤ m → IsMatch P T lo (n + 1) j → j ≤ suc q
      longest zero bound found' = omega arith
      longest (suc j) bound found' =
          let (before, e) = IsMatch-pred lo n j found' in
          omega (arith, best j (omega arith) before (e ∙ here))

      shortest : (P q == x) ≡ false → q ≡ 0 → (j : ℕ) → j ≤ m → IsMatch P T lo (n + 1) j → j ≤ q
      shortest other none_left zero bound found' = omega arith
      shortest other none_left (suc j) bound found' =
          let (before, e) = IsMatch-pred lo n j found' in
          let at_j = e ∙ here in
          let le = best j (omega arith) before at_j in
          let is_q : q ≡ j = omega arith in absurd (ground (arith, ap P is_q ∙ at_j, other))

-- What is compared of the bytes of a pattern
abbrev pub folded : (ℕ → ℕ) → List ℕ → ℕ → ℕ
folded fold pattern i = fold (get_or pattern i 0)

module _ (fold : ℕ → ℕ) (pattern table : List ℕ) where
  abbrev key : ℕ → ℕ
  key = folded fold pattern

  -- The first `n` cells of the table are the lengths of the longest proper borders.
  abbrev pub IsTable : ℕ → Type 0
  IsTable n = (i : ℕ) → i < n → IsLongest key key (length pattern) 1 (i + 1) (get_or table i 0)

  pub fall_back-IsBest :
      (T : ℕ → ℕ) (fuel lo n c k : ℕ)
      → k ≤ fuel
      → k < length pattern
      → k ≤ length table
      → IsTable k
      → IsMatch key T lo n k
      → IsBest key T (length pattern) lo n (fold c) k
      → Returns (fall_back fold fuel table pattern c k) (λ q.
        IsMatch key T lo n q
        × IsBest key T (length pattern) lo n (fold c) q
        × ((q ≡ 0) ⊎ (key q ≡ fold c))
        × (q ≤ k))
  unfolding fall_back
  fall_back-IsBest T fuel lo n c zero enough inside rows correct found best =
      (0, refl, (found, best, inl refl, omega arith))
  fall_back-IsBest T zero lo n c (suc k) enough inside rows correct found best =
      absurd (omega arith)
  fall_back-IsBest T (suc fuel) lo n c (suc k) enough inside rows correct found best =
      let p = get_or pattern (suc k) 0 in
      let read = at-get_or pattern (suc k) 0 inside in
      elim (Bool-cases (fold p == fold c)) [
        | inl same ↦ (
          suc k,
          rw (fall_back, read, ◌>>=◌) (rw same),
          (found, best, inr (eq_of_== (fold p) (fold c) same), omega arith),
        )
        | inr other ↦
            let b = get_or table k 0 in
            let last = at-get_or table k 0 (omega arith) in
            let e : k + 1 ≡ suc k = omega arith in
            let longest : IsLongest key key (length pattern) 1 (suc k) b =
              rw e at (correct k (omega arith)) in
            let shorter : b ≤ k = omega (arith, longest.0.1, longest.0.2) in
            let (q, run, (found', best', stop, le)) =
              fall_back-IsBest T fuel lo n c b (omega arith) (omega arith) (omega arith)
                (λ i h. correct i (omega arith))
                (border-IsMatch key T lo n (suc k) b found longest.0)
                (λ j lt match same.
                  let le = best j lt match same in
                  elim (Bool-cases (j == suc k)) [
                    | inl is_k ↦
                        let e' : suc k ≡ j = sym (eq_of_== j (suc k) is_k) in
                        absurd (ground (arith, ap key e' ∙ same, other))
                    | inr ne ↦
                        longest.1 j (omega arith)
                          (border key T lo n (suc k) j found match (ground arith))
                  ]) in
            (
              q,
              rw (fall_back, read, ◌>>=◌) (rw (other, last, ◌>>=◌) run),
              (found', best', stop, omega arith),
            )
      ]
