-- ===== src/LinkedList/Sort/Split.antt =====
-- listQSortPivot as a whole: the pivot stands between the values that are not above it and the others.
use dictionary.Base.{
  ℕ, ◌+◌, ◌<◌, ◌≤◌, ◌≡◌, refl, ap, ◌∙◌, Bool, true, false, Option, some, ok, ◌>>=◌, Returns, ◌==◌,
  Bool-cases, inl, inr, eq_of_==, ==_refl, arith,
}
use dictionary.LinkedList.Sort.Array.{
  swapped, IsApart, IsLinked, Contents, SameLinks-IsLinked, load-at, step-at, swap-at,
}
use dictionary.LinkedList.Sort.Exchange.{swapped-IsRearranged}
use dictionary.LinkedList.Sort.Pivot.{IsDivided, IsArray, IsArray-trans, pivot_loop-Divided}
use dictionary.LinkedList.Sort.{pivot_loop, sort_pivot, step, swap}
use dictionary.LinkedList.{Pointer, Node, Heap, load}

split_run :
    {D : Type 0} (le : D → D → Bool) (fuel : ℕ) (h h1 h2 : Heap D) (low high i p : Pointer)
    (lo hi : Node D)
    → load h high ≡ ok hi
    → load h low ≡ ok lo
    → pivot_loop le fuel hi.content low high h lo.prev low ≡ ok (some (h1, i))
    → step h1 low i ≡ ok p
    → swap h1 p high ≡ ok h2
    → sort_pivot le fuel h low high ≡ ok (some (h2, p))
unfolding sort_pivot
split_run le fuel h h1 h2 low high i p lo hi read_hi read_lo run stepped swapped =
    rw (sort_pivot, read_hi, ◌>>=◌)
      (rw (read_lo, ◌>>=◌) (rw (run, ◌>>=◌) (rw (stepped, ◌>>=◌) (rw (swapped, ◌>>=◌)))))

module _ {D : Type 0} (n : ℕ) (addr : ℕ → ℕ) (apart : IsApart n addr) (le : D → D → Bool) where
  -- The value at `p` divides the places from `lo` up to `hi`.
  pub record IsSplit (lo p hi : ℕ) (f : ℕ → D) : Type 0 where
    pub lo_p : lo ≤ p
    pub p_hi : p ≤ hi
    pub small : (k : ℕ) → lo ≤ k → k < p → le (f k) (f p) ≡ true
    pub large : (k : ℕ) → p < k → k ≤ hi → le (f k) (f p) ≡ false

  IsDivided-IsSplit :
      (pivot : D) (lo p hi : ℕ) (f : ℕ → D)
      → IsDivided n addr apart le pivot lo p hi hi f
      → IsSplit lo p hi (swapped f p hi)
  IsDivided-IsSplit pivot lo p hi f d =
      let a = d.lo_p in
      let b = d.p_j in
      let at_p : swapped f p hi p ≡ pivot = elim (Bool-cases (p == hi)) [
        | inl e ↦ rw e (rw (eq_of_== p hi e) d.top)
        | inr ne ↦ rw (ne, ==_refl p) d.top
      ] in
      record {
        lo_p = a;
        p_hi = b;
        small = λ k l u.
            let ne : (k == hi) ≡ false = ground arith in
            let ne' : (k == p) ≡ false = ground arith in rw (at_p, ne, ne') (d.small k l u);
        large = λ k l u. elim (Bool-cases (k == hi)) [
          | inl e ↦
              let e' : k ≡ hi = eq_of_== k hi e in
              rw (at_p, e) (d.large p (omega arith) (omega arith))
          | inr ne ↦
              let ne' : (k == p) ≡ false = ground arith in
              rw (at_p, ne, ne') (d.large k (omega arith) (ground arith))
        ];
      }

  -- What `listQSortPivot` leaves
  abbrev pub Split : ℕ → ℕ → Heap D → (ℕ → D) → Option (Heap D × Pointer) → Type 0
  Split lo hi h f r =
      (h' : Heap D) × (f' : ℕ → D) × (p : ℕ) × (r ≡ some (h', some (addr p)))
      × IsArray n addr apart le lo (hi + 1) h f h' f'
      × IsSplit lo p hi f'

  pub sort_pivot-Split :
      (fuel lo hi : ℕ) (h : Heap D) (f : ℕ → D)
      → lo ≤ hi
      → hi < n
      → hi < lo + fuel
      → IsLinked n addr h
      → Contents n addr h f
      → Returns (sort_pivot le fuel h (some (addr lo)) (some (addr hi))) (Split lo hi h f)
  sort_pivot-Split fuel lo hi h f order inside enough l c =
      let start : IsDivided n addr apart le (f hi) lo lo lo hi f = record {
        lo_p = omega arith;
        p_j = omega arith;
        j_hi = order;
        small = λ k a b. absurd (omega arith);
        large = λ k a b. absurd (omega arith);
        top = refl;
      } in
      let (r, run, (h1, f1, p, found, array, divided)) =
        pivot_loop-Divided n addr apart le fuel (f hi) lo lo lo hi h f inside enough l c start in
      let a = divided.lo_p in
      let b = divided.p_j in
      let l1 = SameLinks-IsLinked n addr h h1 array.links l in
      let (h2, r2, (s2, c2)) =
        swap-at n addr apart h1 f1 p hi l1 array.contents (omega arith) inside in
      let moved : IsArray n addr apart le lo (hi + 1) h1 f1 h2 (swapped f1 p hi) = record {
        links = s2;
        contents = c2;
        rearranged =
            swapped-IsRearranged n lo (hi + 1) f1 p hi a (omega arith) order (omega arith)
              (omega arith);
      } in
      (
        some (h2, some (addr p)),
        split_run le fuel h h1 h2 _ _ _ (some (addr p)) _ _ (load-at n addr h f hi l c inside)
            (load-at n addr h f lo l c (omega arith)) (run ∙ ap ok found)
            (step-at n addr h1 f1 (addr lo) p l1 array.contents (omega arith)) r2,
        (
          h2,
          swapped f1 p hi,
          p,
          refl,
          IsArray-trans n addr apart le lo (hi + 1) h f h1 f1 h2 (swapped f1 p hi) array moved,
          IsDivided-IsSplit (f hi) lo p hi f1 divided,
        ),
      )
