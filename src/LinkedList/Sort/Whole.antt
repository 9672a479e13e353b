-- ===== src/LinkedList/Sort/Whole.antt =====
-- listQSort on a list that stands for a sequence.
use mathlib.Core.List.{Perm}
use mathlib.Core.List.Perm
use mathlib.Core.Path.{subst}
use dictionary.Base.{
  ℕ, zero, suc, ◌+◌, ◌-◌, ◌<◌, ◌≤◌, ◌≡◌, refl, sym, ap, ◌∙◌, Bool, true, false, Option, some, List,
  [], ◌∷◌, ok, ◌>>=◌, Returns, leb, length, get_or, All, arith,
}
use dictionary.LinkedList.{Node, Heap, LinkedList, load}
use dictionary.LinkedList.Cells.{content_of}
use dictionary.LinkedList.Chain.{Nexts, Prevs, last}
use dictionary.LinkedList.Ring.{IsRing, Represents}
use dictionary.LinkedList.Sort.{lock, unlock, sort_helper, list_q_sort}
use dictionary.LinkedList.Sort.Array.{Contents, SameLinks, load-at}
use dictionary.LinkedList.Sort.Exchange.{tabulate}
use dictionary.LinkedList.Sort.Ordered.{sort_helper-Sorted}
use dictionary.LinkedList.Sort.Places.{
  address, Distinct-IsApart, IsRing-IsLinked, IsRing-Contents, Holds-tabulate, Holds-length,
  tabulate-get_or,
}
use dictionary.LinkedList.Sort.Range.{IsOrder, IsAscending}

-- Each element comes before the ones behind it.
abbrev pub IsSorted : {D : Type 0} → (D → D → Bool) → List D → Type 0
IsSorted le [] = Unit
IsSorted le (x ∷ xs) = All (λ y. le x y ≡ true) xs × IsSorted le xs

module _ {D : Type 0} (le : D → D → Bool) where
  tabulate-All :
      (n : ℕ) (f : ℕ → D) (x : D)
      → ((k : ℕ) → k < n → le x (f k) ≡ true)
      → All (λ y. le x y ≡ true) (tabulate n f)
  unfolding tabulate
  tabulate-All zero f x h = tt
  tabulate-All (suc n) f x h =
      (h 0 (omega arith), tabulate-All n (λ k. f (suc k)) x (λ k i. h (suc k) (omega arith)))

  tabulate-IsSorted : (n : ℕ) (f : ℕ → D) → IsAscending le 0 n f → IsSorted le (tabulate n f)
  unfolding tabulate
  tabulate-IsSorted zero f h = tt
  tabulate-IsSorted (suc n) f h = (
    tabulate-All n (λ k. f (suc k)) (f 0)
        (λ k i. h 0 (suc k) (omega arith) (omega arith) (omega arith)),
    tabulate-IsSorted n (λ k. f (suc k))
        (λ i j li ij jn. h (suc i) (suc j) (omega arith) (omega arith) (omega arith)),
  )

  -- A ring after its contents have been rearranged
  rearranged-IsRing :
      (h h' : Heap D) (a : ℕ) (ps : List ℕ) (xs : List D) (f : ℕ → D)
      → IsRing h a ps xs
      → SameLinks (length (a ∷ ps)) (address (a ∷ ps)) h h'
      → Contents (length (a ∷ ps)) (address (a ∷ ps)) h' f
      → IsRing h' a ps (tabulate (length (a ∷ ps)) f)
  rearranged-IsRing h h' a ps xs f ring s c = record {
    distinct = ring.distinct;
    nexts = subst (λ g. Nexts g (a ∷ ps) a) (sym s.0) ring.nexts;
    prevs = subst (λ g. Prevs g (last a ps) (a ∷ ps)) (sym s.1) ring.prevs;
    holds = Holds-tabulate (content_of h') (a ∷ ps) f c;
  }

  -- What sorting the whole ring leaves
  abbrev RingSorted : Heap D → ℕ → List ℕ → List D → Option (Heap D) → Type 0
  RingSorted h a ps xs r =
      (h' : Heap D) × (ys : List D) × (r ≡ some h')
      × IsRing h' a ps ys
      × Perm xs ys
      × IsSorted le ys

  ring-RingSorted :
      (order : IsOrder le) (fuel : ℕ) (h : Heap D) (a : ℕ) (ps : List ℕ) (x : D) (xs : List D)
      → IsRing h a ps (x ∷ xs)
      → length (x ∷ xs) ≤ fuel
      → (node : Node D) × (load h (some a) ≡ ok node)
        × Returns (sort_helper le fuel h (some a) node.prev false) (RingSorted h a ps (x ∷ xs))
  ring-RingSorted order fuel h a ps x xs ring enough =
      let qs = a ∷ ps in
      let n = length qs in
      let f : ℕ → D = λ k. get_or (x ∷ xs) k x in
      let size = Holds-length (content_of h) qs (x ∷ xs) ring.holds in
      let l = IsRing-IsLinked h a ps (x ∷ xs) ring in
      let c = IsRing-Contents h a ps (x ∷ xs) x ring in
      let (r, run, (h', f', found, array, up)) =
        sort_helper-Sorted n (address qs) (Distinct-IsApart qs ring.distinct) le order fuel 0
          (n - 1) h f false (omega arith) (omega arith) (omega arith) refl l c in
      let whole : n - 1 + 1 ≡ n = omega arith in
      let same : tabulate n f ≡ x ∷ xs = ap (λ m. tabulate m f) size ∙ tabulate-get_or (x ∷ xs) x in
      (
        _,
        load-at n (address qs) h f 0 l c (omega arith),
        (
          r,
          run,
          (
            h',
            tabulate n f',
            found,
            rearranged-IsRing h h' a ps (x ∷ xs) f' ring array.links array.contents,
            subst (λ zs. Perm zs (tabulate n f')) same array.rearranged.perm,
            tabulate-IsSorted n f' (rw whole at up),
          ),
        ),
      )

  ring-Represents :
      (h : Heap D) (l : LinkedList) (a : ℕ) (ps : List ℕ) (ys : List D)
      → l.root ≡ some a
      → l.len ≡ length ys
      → IsRing h a ps ys
      → Represents h l ys
  ring-Represents h l a ps [] root len ring = absurd ring.holds
  ring-Represents h l a ps (y ∷ ys) root len ring = (a, ps, root, len, ring)

  short_run :
      (fuel : ℕ) (h : Heap D) (l : LinkedList)
      → l.locked ≡ false
      → leb l.len 1 ≡ true
      → list_q_sort fuel (some le) h l ≡ ok (some (h, record l { locked = true }))
  unfolding list_q_sort lock
  short_run fuel h l free small = simp (free, small)

  long_run :
      (fuel : ℕ) (h h' : Heap D) (l : LinkedList) (a : ℕ) (node : Node D)
      → l.locked ≡ false
      → leb l.len 1 ≡ false
      → l.root ≡ some a
      → load h (some a) ≡ ok node
      → sort_helper le fuel h (some a) node.prev false ≡ ok (some h')
      → list_q_sort fuel (some le) h l ≡ ok (some (h', record l { locked = false }))
  unfolding list_q_sort lock unlock
  long_run fuel h h' l a node free large root read run = simp (free, large, root, read, run, ◌>>=◌)

  -- `listQSort` with a total and transitive comparison, on an unlocked list that stands for `xs`,
  -- with at least as much fuel as there are elements: it does not fault and does not run out, and
  -- the list then stands for a sorted permutation of `xs`. The lock is free again if there are at
  -- least two elements, and still held otherwise.
  pub list_q_sort-IsSorted :
      (order : IsOrder le) (fuel : ℕ) (h : Heap D) (l : LinkedList) (xs : List D)
      → Represents h l xs
      → l.locked ≡ false
      → length xs ≤ fuel
      → Returns (list_q_sort fuel (some le) h l) (λ r.
        (h' : Heap D) × (ys : List D) × (r ≡ some (h', record l { locked = leb (length xs) 1 }))
        × Represents h' l ys
        × Perm xs ys
        × IsSorted le ys)
  list_q_sort-IsSorted order fuel h l [] (root, len) free enough =
      (_, short_run fuel h l free (rw len refl), (h, [], refl, (root, len), Perm.refl _, tt))
  list_q_sort-IsSorted order fuel h l (x ∷ []) (a, ps, root, len, ring) free enough = (
    _,
    short_run fuel h l free (rw len refl),
    (h, x ∷ [], refl, (a, ps, root, len, ring), Perm.refl _, (tt, tt)),
  )
  list_q_sort-IsSorted order fuel h l (x ∷ y ∷ xs) (a, ps, root, len, ring) free enough =
      let (node, read, (r, run, (h', ys, found, ring', perm, sorted))) =
        ring-RingSorted order fuel h a ps x (y ∷ xs) ring enough in
      let large : leb (length (x ∷ y ∷ xs)) 1 ≡ false = ground arith in
      let sizes =
        sym (Holds-length (content_of h) (a ∷ ps) (x ∷ y ∷ xs) ring.holds)
        ∙ Holds-length (content_of h') (a ∷ ps) ys ring'.holds in
      (
        some (h', record l { locked = false }),
        long_run fuel h h' l a node free (rw len large) root read (run ∙ ap ok found),
        (
          h',
          ys,
          rw large refl,
          ring-Represents h' l a ps ys root (len ∙ sizes) ring',
          perm,
          sorted,
        ),
      )
