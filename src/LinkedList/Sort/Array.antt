-- ===== src/LinkedList/Sort/Array.antt =====
-- The ring as an array: the node at place `k` has the address `addr k`, and the sort exchanges contents
-- only.
use dictionary.Base.{
  ℕ, ◌+◌, ◌-◌, ◌<◌, ◌≡◌, refl, ap, ◌∙◌, some, ok, ◌>>=◌, Returns, ◌==◌, if◌then◌else◌, eq_of_==,
  ==_refl, Bool-cases, inl, inr, arith,
}
use dictionary.LinkedList.Cells.{next_of, prev_of, content_of, load_lem, set_content_lem}
use dictionary.LinkedList.Chain.{Field, patch}
use dictionary.LinkedList.Ring.{at_field}
use dictionary.LinkedList.Sort.{swap, step}
use dictionary.LinkedList.{Heap, load}

-- The places around the circle of `n`
abbrev pub after : ℕ → ℕ → ℕ
after n k = if k + 1 == n then 0 else k + 1

abbrev pub before : ℕ → ℕ → ℕ
before n k = if k == 0 then n - 1 else k - 1

pub after-before : (n k : ℕ) → k < n → after n (before n k) ≡ k
after-before n k h = ground arith

pub before-lt : (n k : ℕ) → k < n → before n k < n
before-lt n k h = ground arith

pub after-lt : (n k : ℕ) → k < n → after n k < n
after-lt n k h = ground arith

-- `f` after the values at `i` and `j` are exchanged
abbrev pub swapped : {D : Type 0} → (ℕ → D) → ℕ → ℕ → ℕ → D
swapped f i j = patch (patch f i (f j)) j (f i)

-- No two of the first `n` places have the same address.
abbrev pub IsApart : ℕ → (ℕ → ℕ) → Type 0
IsApart n addr = (j k : ℕ) → j < n → k < n → addr j ≡ addr k → j ≡ k

pub addr-== :
    (n : ℕ) (addr : ℕ → ℕ)
    → IsApart n addr
    → (j k : ℕ) → j < n
    → k < n
    → (addr j == addr k) ≡ (j == k)
addr-== n addr apart j k hj hk = elim (Bool-cases (j == k)) [
  | inl e ↦ rw (eq_of_== j k e, ==_refl (addr k), ==_refl k) refl
  | inr ne ↦ elim (Bool-cases (addr j == addr k)) [
    | inr ne' ↦ rw (ne, ne') refl
    | inl e' ↦ let same = apart j k hj hk (eq_of_== _ _ e') in absurd (ground arith)
  ]
]

-- The values at the addresses after one of them is replaced
values-patch :
    {D : Type 0} (n : ℕ) (addr : ℕ → ℕ) (c : Field D) (f : ℕ → D) (i : ℕ) (v : D)
    → IsApart n addr
    → i < n
    → ((k : ℕ) → k < n → c (addr k) ≡ some (f k))
    → (k : ℕ) → k < n
    → patch c (addr i) (some v) (addr k) ≡ some (patch f i v k)
values-patch n addr c f i v apart hi values k hk =
    let e = addr-== n addr apart k i hk hi in
    elim (Bool-cases (k == i)) [ inl here ↦ rw (e, here) refl | inr ne ↦ rw (e, ne) (values k hk) ]

module _ {D : Type 0} (n : ℕ) (addr : ℕ → ℕ) where
  -- The nodes at the first `n` places are linked in a circle.
  pub record IsLinked (h : Heap D) : Type 0 where
    pub next : (k : ℕ) → k < n → next_of h (addr k) ≡ some (some (addr (after n k)))
    pub prev : (k : ℕ) → k < n → prev_of h (addr k) ≡ some (some (addr (before n k)))

  abbrev pub Contents : Heap D → (ℕ → D) → Type 0
  Contents h f = (k : ℕ) → k < n → content_of h (addr k) ≡ some (f k)

  abbrev pub SameLinks : Heap D → Heap D → Type 0
  SameLinks h h' = (next_of h' ≡ next_of h) × (prev_of h' ≡ prev_of h)

  pub SameLinks-IsLinked : (h h' : Heap D) → SameLinks h h' → IsLinked h → IsLinked h'
  SameLinks-IsLinked h h' s l = record {
    next = λ k i. at_field (addr k) (s.0) (l.next k i);
    prev = λ k i. at_field (addr k) (s.1) (l.prev k i);
  }

  pub load-at :
      (h : Heap D) (f : ℕ → D) (k : ℕ)
      → IsLinked h
      → Contents h f
      → k < n
      → load h (some (addr k))
        ≡ ok (record {
          content = f k;
          next = some (addr (after n k));
          prev = some (addr (before n k));
        })
  load-at h f k l c i = load_lem h (addr k) (f k) _ _ (c k i) (l.next k i) (l.prev k i)

  -- The node behind the one before
  pub step-at :
      (h : Heap D) (f : ℕ → D) (low k : ℕ)
      → IsLinked h
      → Contents h f
      → k < n
      → step h (some low) (some (addr (before n k))) ≡ ok (some (addr k))
  unfolding step
  step-at h f low k l c i =
      let j = before n k in
      let inside = before-lt n k i in
      let e = after-before n k i in
      rw (load-at h f j l c inside, ◌>>=◌) (ap (λ m. ok (some (addr m))) e)

  module _ (apart : IsApart n addr) where
    -- The exchange of two contents
    pub swap-at :
        (h : Heap D) (f : ℕ → D) (i j : ℕ)
        → IsLinked h
        → Contents h f
        → i < n
        → j < n
        → Returns
            (swap h (some (addr i)) (some (addr j)))
            (λ h'. SameLinks h h' × Contents h' (swapped f i j))
    unfolding swap
    swap-at h f i j l c hi hj =
        let f1 = patch f i (f j) in
        let (h1, r1, (n1, p1, c1)) = set_content_lem h (addr i) (f j) (f i) (c i hi) in
        let held : Contents h1 f1 = λ k hk.
          at_field (addr k) c1 (values-patch n addr (content_of h) f i (f j) apart hi c k hk) in
        let (h2, r2, (n2, p2, c2)) = set_content_lem h1 (addr j) (f i) (f1 j) (held j hj) in
        (
          h2,
          rw (load-at h f i l c hi, load-at h f j l c hj, ◌>>=◌) (rw (r1, ◌>>=◌) r2),
          (
            (n2 ∙ n1, p2 ∙ p1),
            λ k hk.
                at_field (addr k) c2
                  (values-patch n addr (content_of h1) f1 j (f i) apart hj held k hk),
          ),
        )
