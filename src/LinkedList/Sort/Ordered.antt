-- ===== src/LinkedList/Sort/Ordered.antt =====
-- mboxQSortHelper sorts a range, by induction on its fuel.
use dictionary.Base.{
  ℕ, zero, suc, ◌+◌, ◌-◌, ◌<◌, ◌≤◌, ◌≡◌, refl, ap, ◌∙◌, Bool, true, false, ◌&&◌, Option, some, ok,
  Returns, ◌==◌, Bool-cases, inl, inr, eq_of_==, arith,
}
use dictionary.LinkedList.Sort.Array.{
  after, before, after-lt, IsApart, IsLinked, Contents, SameLinks-IsLinked, load-at,
}
use dictionary.LinkedList.Sort.Exchange.{IsRearranged-refl, IsRearranged-widen}
use dictionary.LinkedList.Sort.Pivot.{IsArray, IsArray-trans, after-inside}
use dictionary.LinkedList.Sort.Range.{
  IsOrder, IsOrder-refl, IsAscending, IsAscending-join, early_run, helper_run, empty_range,
  long_range, single_range,
}
use dictionary.LinkedList.Sort.Split.{IsSplit, sort_pivot-Split}
use dictionary.LinkedList.Sort.{sort_helper}
use dictionary.LinkedList.{Heap}

before-inside : (n k : ℕ) → 0 < k → before n k ≡ k - 1
before-inside n k h = ground arith

before-after : (n k : ℕ) → k < n → before n (after n k) ≡ k
before-after n k h = ground arith

module _ {D : Type 0} (n : ℕ) (addr : ℕ → ℕ) (apart : IsApart n addr) (le : D → D → Bool)
    (order : IsOrder le) where
  -- The places from `lo` up to `hi` have come into order.
  abbrev pub Sorted : ℕ → ℕ → Heap D → (ℕ → D) → Option (Heap D) → Type 0
  Sorted lo hi h f r =
      (h' : Heap D) × (f' : ℕ → D) × (r ≡ some h')
      × IsArray n addr apart le lo hi h f h' f'
      × IsAscending le lo hi f'

  -- What the fuel is enough for
  abbrev pub Sorts : ℕ → Type 0
  Sorts fuel =
      (lo hi : ℕ) (h : Heap D) (f : ℕ → D) (inner : Bool)
      → lo ≤ hi
      → hi < n
      → hi < lo + fuel
      → (inner && (lo == 0 && hi + 1 == n)) ≡ false
      → IsLinked n addr h
      → Contents n addr h f
      → Returns (sort_helper le fuel h (some (addr lo)) (some (addr hi)) inner)
          (Sorted lo (hi + 1) h f)

  unchanged-Sorted :
      (lo hi : ℕ) (h : Heap D) (f : ℕ → D)
      → Contents n addr h f
      → IsAscending le lo hi f
      → Sorted lo hi h f (some h)
  unchanged-Sorted lo hi h f c a = (
    h,
    f,
    refl,
    record { links = (refl, refl); contents = c; rearranged = IsRearranged-refl n lo hi f },
    a,
  )

  empty-Sorted :
      (fuel k lo hi : ℕ) (h : Heap D) (f : ℕ → D)
      → 0 < fuel
      → k < n
      → hi ≤ lo
      → IsLinked n addr h
      → Contents n addr h f
      → Returns
          (sort_helper le fuel h (some (addr k)) (some (addr (before n k))) true)
          (Sorted lo hi h f)
  empty-Sorted zero k lo hi h f some_fuel inside none_between l c = absurd (omega arith)
  empty-Sorted (suc fuel) k lo hi h f some_fuel inside none_between l c = (
    some h,
    early_run le fuel h _ _ true (empty_range n addr apart le h f k l c inside),
    unchanged-Sorted lo hi h f c (λ i j li ij jh. absurd (omega arith)),
  )

  -- The two inner calls
  left-Sorted :
      (fuel lo p : ℕ) (h : Heap D) (f : ℕ → D)
      → Sorts fuel
      → lo ≤ p
      → p < n
      → 0 < fuel
      → p < lo + suc fuel
      → IsLinked n addr h
      → Contents n addr h f
      → Returns
          (sort_helper le fuel h (some (addr lo)) (some (addr (before n p))) true)
          (Sorted lo p h f)
  left-Sorted fuel lo p h f sorts lp inside some_fuel enough l c = elim (Bool-cases (p == lo)) [
    | inl e ↦
        let e' : p ≡ lo = eq_of_== p lo e in
        rw e' (empty-Sorted fuel lo lo lo h f some_fuel (omega arith) (omega arith) l c)
    | inr ne ↦
        let back : p - 1 + 1 ≡ p = ground arith in
        let part : (true && (lo == 0 && p - 1 + 1 == n)) ≡ false = ground arith in
        rw (before-inside n p (ground arith)) (
          rw back at
            (sorts lo (p - 1) h f true (ground arith) (omega arith) (ground arith) part l c))
  ]

  right-Sorted :
      (fuel p hi : ℕ) (h : Heap D) (f : ℕ → D)
      → Sorts fuel
      → p ≤ hi
      → hi < n
      → 0 < fuel
      → hi < p + suc fuel
      → IsLinked n addr h
      → Contents n addr h f
      → Returns
          (sort_helper le fuel h (some (addr (after n p))) (some (addr hi)) true)
          (Sorted (p + 1) (hi + 1) h f)
  right-Sorted fuel p hi h f sorts ph inside some_fuel enough l c = elim (Bool-cases (p == hi)) [
    | inl e ↦
        let e' : p ≡ hi = eq_of_== p hi e in
        rw e' (
          rw (before-after n hi inside) at (
            empty-Sorted fuel (after n hi) (hi + 1) (hi + 1) h f some_fuel (after-lt n hi inside)
              (omega arith) l c))
    | inr ne ↦
        let part : (true && (p + 1 == 0 && hi + 1 == n)) ≡ false = ground arith in
        rw (after-inside n p (ground arith))
          (sorts (p + 1) hi h f true (ground arith) inside (omega arith) part l c)
  ]

  -- The value that divides the range, and the two parts in order: what the values are in the end.
  join-Ascending :
      (lo p hi : ℕ) (h h1 h2 h3 : Heap D) (f1 f2 f3 : ℕ → D)
      → IsSplit n addr apart le lo p hi f1
      → IsArray n addr apart le lo p h1 f1 h2 f2
      → IsAscending le lo p f2
      → IsArray n addr apart le (p + 1) (hi + 1) h2 f2 h3 f3
      → IsAscending le (p + 1) (hi + 1) f3
      → IsAscending le lo (hi + 1) f3
  join-Ascending lo p hi h h1 h2 h3 f1 f2 f3 s a left b right =
      let first = a.rearranged in
      let second = b.rearranged in
      let at_p : f3 p ≡ f1 p = second.below p (omega arith) ∙ first.above p (omega arith) in
      IsAscending-join le order lo p (hi + 1) f3
        (λ i j li ij jp.
          rw (second.below i (omega arith), second.below j (omega arith)) (left i j li ij jp))
        right
        (λ k l u.
          let (m, lm, mp, e) = first.drawn k l u in
          rw (at_p, second.below k (omega arith), e) (s.small m lm mp))
        (λ k l u.
          let (m, lm, mh, e) = second.drawn k (omega arith) u in
          let e' = first.above m (omega arith) in
          rw (at_p, e, e') (order.total (f1 m) (f1 p) (s.large m (omega arith) (omega arith))))

  widened :
      (lo hi lo' hi' : ℕ) (h : Heap D) (f : ℕ → D) (h' : Heap D) (f' : ℕ → D)
      → lo' ≤ lo
      → hi ≤ hi'
      → IsArray n addr apart le lo hi h f h' f'
      → IsArray n addr apart le lo' hi' h f h' f'
  widened lo hi lo' hi' h f h' f' hl hh a = record {
    links = a.links;
    contents = a.contents;
    rearranged = IsRearranged-widen n lo hi lo' hi' f f' hl hh a.rearranged;
  }

  -- The range that has more than one place
  long-Sorted :
      (fuel lo hi : ℕ) (h : Heap D) (f : ℕ → D) (inner : Bool)
      → Sorts fuel
      → lo < hi
      → hi < n
      → hi < lo + suc fuel
      → (inner && (lo == 0 && hi + 1 == n)) ≡ false
      → IsLinked n addr h
      → Contents n addr h f
      → Returns
          (sort_helper le (suc fuel) h (some (addr lo)) (some (addr hi)) inner)
          (Sorted lo (hi + 1) h f)
  long-Sorted fuel lo hi h f inner sorts less inside enough part l c =
      let (r, split, (h1, f1, p, found, array, s)) =
        sort_pivot-Split n addr apart le (suc fuel) lo hi h f (omega arith) inside enough l c in
      let lp = s.lo_p in
      let ph = s.p_hi in
      let l1 = SameLinks-IsLinked n addr h h1 array.links l in
      let (r2, left, (h2, f2, found2, array2, up2)) =
        left-Sorted fuel lo p h1 f1 sorts lp (omega arith) (omega arith) (omega arith) l1
          array.contents in
      let l2 = SameLinks-IsLinked n addr h1 h2 array2.links l1 in
      let (r3, right, (h3, f3, found3, array3, up3)) =
        right-Sorted fuel p hi h2 f2 sorts ph inside (omega arith) (omega arith) l2
          array2.contents in
      let whole2 = widened lo p lo (hi + 1) h1 f1 h2 f2 (omega arith) (omega arith) array2 in
      let whole3 =
        widened (p + 1) (hi + 1) lo (hi + 1) h2 f2 h3 f3 (omega arith) (omega arith) array3 in
      (
        some h3,
        helper_run le fuel h h1 h2 h3 _ _ (some (addr p)) inner _ _
            (long_range n addr apart le h f lo hi inner l c less inside part) (split ∙ ap ok found)
            (load-at n addr h1 f1 p l1 array.contents (omega arith)) (left ∙ ap ok found2)
            (load-at n addr h2 f2 p l2 array2.contents (omega arith)) (right ∙ ap ok found3),
        (
          h3,
          f3,
          refl,
          IsArray-trans n addr apart le lo (hi + 1) h f h1 f1 h3 f3 array
              (IsArray-trans n addr apart le lo (hi + 1) h1 f1 h2 f2 h3 f3 whole2 whole3),
          join-Ascending lo p hi h h1 h2 h3 f1 f2 f3 s array2 up2 array3 up3,
        ),
      )

  pub sort_helper-Sorted : (fuel : ℕ) → Sorts fuel
  sort_helper-Sorted zero lo hi h f inner lh inside enough part l c = absurd (omega arith)
  sort_helper-Sorted (suc fuel) lo hi h f inner lh inside enough part l c =
      elim (Bool-cases (lo == hi)) [
        | inr ne ↦
            long-Sorted fuel lo hi h f inner (sort_helper-Sorted fuel) (ground arith) inside enough
              part l c
        | inl e ↦
            let e' : lo ≡ hi = eq_of_== lo hi e in
            let one : IsAscending le hi (hi + 1) f = λ i j li ij jh.
              let i_hi : i ≡ hi = omega arith in
              let j_hi : j ≡ hi = omega arith in rw (i_hi, j_hi) (IsOrder-refl le order (f hi)) in
            rw e' (
              some h,
              early_run le fuel h _ _ inner (single_range n addr apart le h (addr hi) inner),
              unchanged-Sorted hi (hi + 1) h f c one,
            )
      ]
