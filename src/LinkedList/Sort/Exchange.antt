-- ===== src/LinkedList/Sort/Exchange.antt =====
-- Arrays as functions: their lists, and what exchanges of values do to a part of one.
use mathlib.Core.List.{Perm}
use mathlib.Core.List.Perm
use dictionary.Base.{
  ℕ, zero, suc, ◌<◌, ◌≤◌, ◌≡◌, refl, ◌∙◌, List, [], ◌∷◌, false, ◌==◌, Bool-cases, inl, inr, leb,
  ltb, arith,
}
use dictionary.LinkedList.Chain.{patch}
use dictionary.LinkedList.Sort.Array.{swapped}

module _ {D : Type 0} where
  -- The first `n` values
  unfoldable pub tabulate : ℕ → (ℕ → D) → List D
  tabulate zero f = []
  tabulate (suc n) f = f 0 ∷ tabulate n (λ k. f (suc k))

  pub tabulate_congr :
      (n : ℕ) (f g : ℕ → D) → ((k : ℕ) → k < n → f k ≡ g k) → tabulate n f ≡ tabulate n g
  unfolding tabulate
  tabulate_congr zero f g h = refl
  tabulate_congr (suc n) f g h =
      let rest =
        tabulate_congr n (λ k. f (suc k)) (λ k. g (suc k)) (λ k i. h (suc k) (omega arith)) in
      rw (h 0 (omega arith), rest) refl

  -- A value and an array, after the value has taken a place
  replace-Perm :
      (n : ℕ) (f : ℕ → D) (j : ℕ) (v : D)
      → j < n
      → Perm (v ∷ tabulate n f) (f j ∷ tabulate n (patch f j v))
  unfolding tabulate
  replace-Perm zero f j v h = absurd (omega arith)
  replace-Perm (suc n) f zero v h =
      let e =
        tabulate_congr n (λ k. patch f 0 v (suc k)) (λ k. f (suc k))
          (λ k i. let ne : (suc k == 0) ≡ false = ground arith in rw ne refl) in
      rw e (Perm.swap _ _ _)
  replace-Perm (suc n) f (suc j) v h =
      let g : ℕ → D = λ k. f (suc k) in
      let e =
        tabulate_congr n (λ k. patch f (suc j) v (suc k)) (patch g j v)
          (λ k i. let same : (suc k == suc j) ≡ (k == j) = ground arith in rw same refl) in
      let ne : (0 == suc j) ≡ false = ground arith in
      rw (e, ne)
        (Perm.trans (Perm.swap _ _ _)
          (Perm.trans (Perm.cons _ (replace-Perm n g j v (omega arith))) (Perm.swap _ _ _)))

  patch-other : (f : ℕ → D) (i j : ℕ) → patch f i (f j) j ≡ f j
  patch-other f i j = elim (Bool-cases (j == i)) [ inl e ↦ rw e refl | inr ne ↦ rw ne refl ]

  swapped-Perm :
      (n : ℕ) (f : ℕ → D) (i j : ℕ)
      → i < n
      → j < n
      → Perm (tabulate n f) (tabulate n (swapped f i j))
  swapped-Perm n f i j hi hj =
      let f1 = patch f i (f j) in
      let first = replace-Perm n f i (f j) hi in
      let second = replace-Perm n f1 j (f i) hj in
      Perm.cons_inv (Perm.trans first (rw (patch-other f i j) at second))

  -- The values from `lo` up to `hi` change places among themselves, and no others change.
  pub record IsRearranged (n lo hi : ℕ) (f f' : ℕ → D) : Type 0 where
    pub below : (k : ℕ) → k < lo → f' k ≡ f k
    pub above : (k : ℕ) → hi ≤ k → f' k ≡ f k
    pub drawn : (k : ℕ) → lo ≤ k → k < hi → (m : ℕ) × (lo ≤ m) × (m < hi) × (f' k ≡ f m)
    pub perm : Perm (tabulate n f) (tabulate n f')

  pub IsRearranged-refl : (n lo hi : ℕ) (f : ℕ → D) → IsRearranged n lo hi f f
  IsRearranged-refl n lo hi f = record {
    below = λ k h. refl;
    above = λ k h. refl;
    drawn = λ k l h. (k, l, h, refl);
    perm = Perm.refl _;
  }

  pub IsRearranged-trans :
      (n lo hi : ℕ) (f g h : ℕ → D)
      → IsRearranged n lo hi f g
      → IsRearranged n lo hi g h
      → IsRearranged n lo hi f h
  IsRearranged-trans n lo hi f g h r s = record {
    below = λ k b. s.below k b ∙ r.below k b;
    above = λ k b. s.above k b ∙ r.above k b;
    drawn = λ k l b.
        let (m, lm, mh, e) = s.drawn k l b in
        let (m', lm', mh', e') = r.drawn m lm mh in (m', lm', mh', e ∙ e');
    perm = Perm.trans r.perm s.perm;
  }

  pub IsRearranged-widen :
      (n lo hi lo' hi' : ℕ) (f g : ℕ → D)
      → lo' ≤ lo
      → hi ≤ hi'
      → IsRearranged n lo hi f g
      → IsRearranged n lo' hi' f g
  IsRearranged-widen n lo hi lo' hi' f g hl hh r = record {
    below = λ k b. r.below k (omega arith);
    above = λ k b. r.above k (omega arith);
    drawn = λ k l b. elim (Bool-cases (leb lo k)) [
      | inr under ↦ (k, l, b, r.below k (ground arith))
      | inl over ↦ elim (Bool-cases (ltb k hi)) [
        | inr past ↦ (k, l, b, r.above k (ground arith))
        | inl inside ↦
            let (m, lm, mh, e) = r.drawn k (ground arith) (ground arith) in
            (m, omega arith, omega arith, e)
      ]
    ];
    perm = r.perm;
  }

  pub swapped-IsRearranged :
      (n lo hi : ℕ) (f : ℕ → D) (i j : ℕ)
      → lo ≤ i
      → i < hi
      → lo ≤ j
      → j < hi
      → hi ≤ n
      → IsRearranged n lo hi f (swapped f i j)
  swapped-IsRearranged n lo hi f i j li ih lj jh inside = record {
    below = λ k b.
        let a : (k == i) ≡ false = ground arith in
        let c : (k == j) ≡ false = ground arith in rw (c, a) refl;
    above = λ k b.
        let a : (k == i) ≡ false = ground arith in
        let c : (k == j) ≡ false = ground arith in rw (c, a) refl;
    drawn = λ k l b. elim (Bool-cases (k == j)) [
      | inl at_j ↦ (i, li, ih, rw at_j refl)
      | inr ne ↦ elim (Bool-cases (k == i)) [
        | inl at_i ↦ (j, lj, jh, rw (ne, at_i) refl)
        | inr ne' ↦ (k, l, b, rw (ne, ne') refl)
      ]
    ];
    perm = swapped-Perm n f i j (omega arith) (omega arith);
  }
