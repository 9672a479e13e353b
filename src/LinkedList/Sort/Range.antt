-- ===== src/LinkedList/Sort/Range.antt =====
-- mboxQSortHelper: a range of the array comes into order.
use dictionary.Base.{
  ℕ, suc, ◌+◌, ◌<◌, ◌≤◌, ◌≡◌, refl, ◌∙◌, Bool, true, false, ◌&&◌, some, ok, ◌>>=◌, ◌==◌, Bool-cases,
  inl, inr, eq_of_==, ==_refl, ltb, arith,
}
use dictionary.LinkedList.Sort.Array.{
  after, before, after-before, before-lt, after-lt, IsApart, addr-==, IsLinked, Contents, load-at,
}
use dictionary.LinkedList.Sort.{sort_pivot, sorted_range, sort_helper}
use dictionary.LinkedList.{Pointer, Node, Heap, load}

-- A comparison that is total and transitive; `le a b` is `compare(a, b) < 1`.
pub record IsOrder {D : Type 0} (le : D → D → Bool) : Type 0 where
  pub total : (x y : D) → le x y ≡ false → le y x ≡ true
  pub trans : (x y z : D) → le x y ≡ true → le y z ≡ true → le x z ≡ true

pub IsOrder-refl : {D : Type 0} (le : D → D → Bool) → IsOrder le → (x : D) → le x x ≡ true
IsOrder-refl le o x = elim (Bool-cases (le x x)) [ inl e ↦ e | inr e ↦ o.total x x e ]

-- The values from `lo` up to `hi` are in order.
abbrev pub IsAscending : {D : Type 0} → (D → D → Bool) → ℕ → ℕ → (ℕ → D) → Type 0
IsAscending le lo hi f = (i j : ℕ) → lo ≤ i → i ≤ j → j < hi → le (f i) (f j) ≡ true

-- Two parts in order, on the two sides of a value that divides them
pub IsAscending-join :
    {D : Type 0} (le : D → D → Bool) (o : IsOrder le) (lo p hi : ℕ) (f : ℕ → D)
    → IsAscending le lo p f
    → IsAscending le (p + 1) hi f
    → ((k : ℕ) → lo ≤ k → k < p → le (f k) (f p) ≡ true)
    → ((k : ℕ) → p < k → k < hi → le (f p) (f k) ≡ true)
    → IsAscending le lo hi f
IsAscending-join le o lo p hi f left right small large i j li ij jh = elim (Bool-cases (ltb j p)) [
  | inl first ↦ left i j li ij (ground arith)
  | inr past ↦ elim (Bool-cases (ltb p i)) [
    | inl second ↦ right i j (ground arith) ij jh
    | inr across ↦
        let below : le (f i) (f p) ≡ true = elim (Bool-cases (i == p)) [
          | inl e ↦ rw (eq_of_== i p e) (IsOrder-refl le o (f p))
          | inr ne ↦ small i li (ground arith)
        ] in
        let over : le (f p) (f j) ≡ true = elim (Bool-cases (j == p)) [
          | inl e ↦ rw (eq_of_== j p e) (IsOrder-refl le o (f p))
          | inr ne ↦ large j (ground arith) jh
        ] in
        o.trans (f i) (f p) (f j) below over
  ]
]

-- The function's early return, and the rest of it, from what its calls return
pub early_run :
    {D : Type 0} (le : D → D → Bool) (fuel : ℕ) (h : Heap D) (low high : Pointer) (inner : Bool)
    → sorted_range le h low high inner ≡ ok true
    → sort_helper le (suc fuel) h low high inner ≡ ok (some h)
unfolding sort_helper
early_run le fuel h low high inner e = rw (sort_helper, e, ◌>>=◌) refl

pub helper_run :
    {D : Type 0} (le : D → D → Bool) (fuel : ℕ) (h h1 h2 h3 : Heap D) (low high pivot : Pointer)
    (inner : Bool) (n n' : Node D)
    → sorted_range le h low high inner ≡ ok false
    → sort_pivot le (suc fuel) h low high ≡ ok (some (h1, pivot))
    → load h1 pivot ≡ ok n
    → sort_helper le fuel h1 low n.prev true ≡ ok (some h2)
    → load h2 pivot ≡ ok n'
    → sort_helper le fuel h2 n'.next high true ≡ ok (some h3)
    → sort_helper le (suc fuel) h low high inner ≡ ok (some h3)
unfolding sort_helper
helper_run le fuel h h1 h2 h3 low high pivot inner n n' range split at1 left at2 right =
    rw (sort_helper, range, ◌>>=◌)
      (rw (split, ◌>>=◌) (rw (at1, ◌>>=◌) (rw (left, ◌>>=◌) (rw (at2, ◌>>=◌) right))))

module _ {D : Type 0} (n : ℕ) (addr : ℕ → ℕ) (apart : IsApart n addr) (le : D → D → Bool) where
  -- An inner call on no places: its end is the node in front of its start.
  pub empty_range :
      (h : Heap D) (f : ℕ → D) (k : ℕ)
      → IsLinked n addr h
      → Contents n addr h f
      → k < n
      → sorted_range le h (some (addr k)) (some (addr (before n k))) true ≡ ok true
  unfolding sorted_range
  empty_range h f k l c inside = elim (Bool-cases (addr k == addr (before n k))) [
    | inl e ↦ rw e refl
    | inr ne ↦
        let read = load-at n addr h f (before n k) l c (before-lt n k inside) in
        rw ne (rw (read, ◌>>=◌) (rw (after-before n k inside) (rw (==_refl (addr k)) refl)))
  ]

  apart_after :
      (lo hi : ℕ) → lo < hi → hi < n → (lo == 0 && hi + 1 == n) ≡ false → (lo == after n hi) ≡ false
  apart_after lo hi less inside part = ground arith

  -- More than one place, and not all of them in an inner call
  pub long_range :
      (h : Heap D) (f : ℕ → D) (lo hi : ℕ) (inner : Bool)
      → IsLinked n addr h
      → Contents n addr h f
      → lo < hi
      → hi < n
      → (inner && (lo == 0 && hi + 1 == n)) ≡ false
      → sorted_range le h (some (addr lo)) (some (addr hi)) inner ≡ ok false
  unfolding sorted_range
  long_range h f lo hi false l c less inside part =
      let e = addr-== n addr apart lo hi (omega arith) inside in
      let ne : (addr lo == addr hi) ≡ false = e ∙ ground arith in rw ne refl
  long_range h f lo hi true l c less inside part =
      let e = addr-== n addr apart lo hi (omega arith) inside in
      let ne : (addr lo == addr hi) ≡ false = e ∙ ground arith in
      let read = load-at n addr h f hi l c inside in
      let e' = addr-== n addr apart lo (after n hi) (omega arith) (after-lt n hi inside) in
      let ne' : (addr lo == addr (after n hi)) ≡ false = e' ∙ apart_after lo hi less inside part in
      rw ne (rw (read, ◌>>=◌) (rw ne' refl))

  pub single_range :
      (h : Heap D) (a : ℕ) (inner : Bool) → sorted_range le h (some a) (some a) inner ≡ ok true
  unfolding sorted_range
  single_range h a inner = rw (==_refl a) refl
