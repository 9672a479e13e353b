-- ===== src/LinkedList/Sort/Pivot.antt =====
-- listQSortPivot: the values that are not above the pivot come to stand in front of it.
use dictionary.Base.{
  ℕ, zero, suc, ◌+◌, ◌<◌, ◌≤◌, ◌≡◌, refl, ◌∙◌, Bool, true, false, Option, some, Run, ok, ◌>>=◌,
  Returns, ◌==◌, Bool-cases, inl, inr, eq_of_==, arith,
}
use dictionary.LinkedList.Sort.Array.{
  after, before, swapped, IsApart, addr-==, IsLinked, Contents, SameLinks, SameLinks-IsLinked,
  load-at, step-at, swap-at,
}
use dictionary.LinkedList.Sort.Exchange.{
  IsRearranged, IsRearranged-refl, IsRearranged-trans, swapped-IsRearranged,
}
use dictionary.LinkedList.Sort.{pivot_loop, step, swap}
use dictionary.LinkedList.{Pointer, Node, same, Heap, load}

pub before-suc : (n k : ℕ) → before n (k + 1) ≡ k
before-suc n k = ground arith

pub after-inside : (n k : ℕ) → k + 1 < n → after n k ≡ k + 1
after-inside n k h = ground arith

-- One round of the loop, from what its calls return
take_run :
    {D : Type 0} (le : D → D → Bool) (fuel : ℕ) (pivot : D) (low high i i' : Pointer) (a : ℕ)
    (h h1 : Heap D) (node node1 : Node D) (r : Run (Option (Heap D × Pointer)))
    → same (some a) high ≡ false
    → load h (some a) ≡ ok node
    → le node.content pivot ≡ true
    → step h low i ≡ ok i'
    → swap h i' (some a) ≡ ok h1
    → load h1 (some a) ≡ ok node1
    → pivot_loop le fuel pivot low high h1 i' node1.next ≡ r
    → pivot_loop le (suc fuel) pivot low high h i (some a) ≡ r
unfolding pivot_loop
take_run le fuel pivot low high i i' a h h1 node node1 r more read fits stepped swapped read1 run =
    rw (pivot_loop, more)
      (rw (read, ◌>>=◌)
        (rw fits (rw (stepped, ◌>>=◌) (rw (swapped, ◌>>=◌) (rw (read1, ◌>>=◌) run)))))

skip_run :
    {D : Type 0} (le : D → D → Bool) (fuel : ℕ) (pivot : D) (low high i : Pointer) (a : ℕ)
    (h : Heap D) (node : Node D) (r : Run (Option (Heap D × Pointer)))
    → same (some a) high ≡ false
    → load h (some a) ≡ ok node
    → le node.content pivot ≡ false
    → pivot_loop le fuel pivot low high h i node.next ≡ r
    → pivot_loop le (suc fuel) pivot low high h i (some a) ≡ r
unfolding pivot_loop
skip_run le fuel pivot low high i a h node r more read above run =
    rw (pivot_loop, more) (rw (read, ◌>>=◌) (rw above run))

module _ {D : Type 0} (n : ℕ) (addr : ℕ → ℕ) (apart : IsApart n addr) (le : D → D → Bool) where
  -- Up to `p` the values are not above the pivot, and from there to `j` they are.
  pub record IsDivided (pivot : D) (lo p j hi : ℕ) (f : ℕ → D) : Type 0 where
    pub lo_p : lo ≤ p
    pub p_j : p ≤ j
    pub j_hi : j ≤ hi
    pub small : (k : ℕ) → lo ≤ k → k < p → le (f k) pivot ≡ true
    pub large : (k : ℕ) → p ≤ k → k < j → le (f k) pivot ≡ false
    pub top : f hi ≡ pivot

  -- The heap and the values after a part of the array has been rearranged
  pub record IsArray (lo hi : ℕ) (h : Heap D) (f : ℕ → D) (h' : Heap D) (f' : ℕ → D) : Type 0 where
    pub links : SameLinks n addr h h'
    pub contents : Contents n addr h' f'
    pub rearranged : IsRearranged n lo hi f f'

  -- One more value that is not above the pivot
  IsDivided-swap :
      (pivot : D) (lo p j hi : ℕ) (f : ℕ → D)
      → j < hi
      → le (f j) pivot ≡ true
      → IsDivided pivot lo p j hi f
      → IsDivided pivot lo (p + 1) (j + 1) hi (swapped f p j)
  IsDivided-swap pivot lo p j hi f h fits d =
      let a = d.lo_p in
      let b = d.p_j in
      record {
        lo_p = omega arith;
        p_j = omega arith;
        j_hi = omega arith;
        small = λ k l u. elim (Bool-cases (k == j)) [
          | inl at_j ↦
              let e : k ≡ j = eq_of_== k j at_j in
              let e' : p ≡ j = omega arith in rw (at_j) (rw e' fits)
          | inr ne ↦ elim (Bool-cases (k == p)) [
            | inl at_p ↦ rw (ne, at_p) fits
            | inr ne' ↦ rw (ne, ne') (d.small k l (ground arith))
          ]
        ];
        large = λ k l u. elim (Bool-cases (k == j)) [
          | inl at_j ↦
              let e : k ≡ j = eq_of_== k j at_j in rw at_j (d.large p (omega arith) (omega arith))
          | inr ne ↦
              let ne' : (k == p) ≡ false = ground arith in
              rw (ne, ne') (d.large k (omega arith) (ground arith))
        ];
        top =
            let ne : (hi == j) ≡ false = ground arith in
            let ne' : (hi == p) ≡ false = ground arith in rw (ne, ne') d.top;
      }

  IsDivided-skip :
      (pivot : D) (lo p j hi : ℕ) (f : ℕ → D)
      → j < hi
      → le (f j) pivot ≡ false
      → IsDivided pivot lo p j hi f
      → IsDivided pivot lo p (j + 1) hi f
  IsDivided-skip pivot lo p j hi f h above d =
      let a = d.p_j in
      record {
        lo_p = d.lo_p;
        p_j = omega arith;
        j_hi = omega arith;
        small = d.small;
        large = λ k l u. elim (Bool-cases (k == j)) [
          | inl at_j ↦ rw (eq_of_== k j at_j) above
          | inr ne ↦ d.large k l (ground arith)
        ];
        top = d.top;
      }

  pub load_next-at :
      (h : Heap D) (f : ℕ → D) (k : ℕ)
      → IsLinked n addr h
      → Contents n addr h f
      → k + 1 < n
      → load h (some (addr k))
        ≡ ok (record { content = f k; next = some (addr (k + 1)); prev = some (addr (before n k)) })
  load_next-at h f k l c inside =
      let read = load-at n addr h f k l c (omega arith) in rw (after-inside n k inside) at read

  -- What the loop of `listQSortPivot` leaves
  abbrev pub Divided : D → ℕ → ℕ → Heap D → (ℕ → D) → Option (Heap D × Pointer) → Type 0
  Divided pivot lo hi h f r =
      (h' : Heap D) × (f' : ℕ → D) × (p : ℕ) × (r ≡ some (h', some (addr (before n p))))
      × IsArray lo (hi + 1) h f h' f'
      × IsDivided pivot lo p hi hi f'

  pub IsArray-trans :
      (lo hi : ℕ) (h : Heap D) (f : ℕ → D) (h1 : Heap D) (f1 : ℕ → D) (h2 : Heap D) (f2 : ℕ → D)
      → IsArray lo hi h f h1 f1
      → IsArray lo hi h1 f1 h2 f2
      → IsArray lo hi h f h2 f2
  IsArray-trans lo hi h f h1 f1 h2 f2 a b = record {
    links = (b.links.0 ∙ a.links.0, b.links.1 ∙ a.links.1);
    contents = b.contents;
    rearranged = IsRearranged-trans n lo hi f f1 f2 a.rearranged b.rearranged;
  }

  pub pivot_loop-Divided :
      (fuel : ℕ) (pivot : D) (lo p j hi : ℕ) (h : Heap D) (f : ℕ → D)
      → hi < n
      → hi < j + fuel
      → IsLinked n addr h
      → Contents n addr h f
      → IsDivided pivot lo p j hi f
      → Returns
          (pivot_loop le fuel pivot
            (some (addr lo))
            (some (addr hi))
            h
            (some (addr (before n p)))
            (some (addr j)))
          (Divided pivot lo hi h f)
  unfolding pivot_loop
  pivot_loop-Divided zero pivot lo p j hi h f inside enough l c d =
      let b = d.j_hi in absurd (omega arith)
  pivot_loop-Divided (suc fuel) pivot lo p j hi h f inside enough l c d =
      let lp = d.lo_p in
      let pj = d.p_j in
      let jh = d.j_hi in
      let e = addr-== n addr apart j hi (omega arith) inside in
      elim (Bool-cases (j == hi)) [
        | inl done ↦ (
          some (h, some (addr (before n p))),
          rw (pivot_loop, e, done) refl,
          (
            h,
            f,
            p,
            refl,
            record {
              links = (refl, refl);
              contents = c;
              rearranged = IsRearranged-refl n lo (hi + 1) f;
            },
            rw (eq_of_== j hi done) at d,
          ),
        )
        | inr more ↦
            let room : j < hi = ground arith in
            let read = load_next-at h f j l c (omega arith) in
            let differ : (addr j == addr hi) ≡ false = e ∙ more in
            elim (Bool-cases (le (f j) pivot)) [
              | inr above ↦
                  let (r, run, rest) =
                    pivot_loop-Divided fuel pivot lo p (j + 1) hi h f inside (omega arith) l c
                      (IsDivided-skip pivot lo p j hi f room above d) in
                  (r, skip_run le fuel pivot _ _ _ (addr j) h _ _ differ read above run, rest)
              | inl fits ↦
                  let stepped = step-at n addr h f (addr lo) p l c (omega arith) in
                  let (h1, r1, (s1, c1)) =
                    swap-at n addr apart h f p j l c (omega arith) (omega arith) in
                  let f1 = swapped f p j in
                  let l1 = SameLinks-IsLinked n addr h h1 s1 l in
                  let read1 = load_next-at h1 f1 j l1 c1 (omega arith) in
                  let moved : IsArray lo (hi + 1) h f h1 f1 = record {
                    links = s1;
                    contents = c1;
                    rearranged =
                        swapped-IsRearranged n lo (hi + 1) f p j lp (omega arith) (omega arith)
                          (omega arith) (omega arith);
                  } in
                  let (r, run, (h2, f2, p2, found, array, divided)) =
                    pivot_loop-Divided fuel pivot lo (p + 1) (j + 1) hi h1 f1 inside (omega arith)
                      l1 c1 (IsDivided-swap pivot lo p j hi f room fits d) in
                  let run' = rw (before-suc n p) at run in
                  (
                    r,
                    take_run le fuel pivot _ _ _ (some (addr p)) (addr j) h h1 _ _ _ differ read
                        fits stepped r1 read1 run',
                    (
                      h2,
                      f2,
                      p2,
                      found,
                      IsArray-trans lo (hi + 1) h f h1 f1 h2 f2 moved array,
                      divided,
                    ),
                  )
            ]
      ]
