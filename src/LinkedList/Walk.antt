-- ===== src/LinkedList/Walk.antt =====
-- listFind and listRelease as operations on lists.
use dictionary.Base.{
  ℕ, zero, suc, ◌≤◌, ◌≡◌, refl, sym, ap, Bool, true, false, Option, none, some, List, [], ◌∷◌, ok,
  ◌>>=◌, length, ◌==◌, if◌then◌else◌, Bool-cases, inl, inr, arith,
}
use dictionary.LinkedList.Chain.{head_or, Nexts, Prevs, Holds, last}
use dictionary.LinkedList.Cells.{next_of, prev_of, content_of, load_lem}
use dictionary.LinkedList.Ring.{Represents}
use dictionary.LinkedList.Remove.{remove_head-Represents}
use dictionary.LinkedList.{Heap, LinkedList, find_loop, list_find, release_nodes, list_release}

module _ {D : Type 0} where
  abbrev pub first_match : (D → Bool) → List D → Option D
  first_match matches [] = none
  first_match matches (x ∷ xs) = if matches x then some x else first_match matches xs

  find_loop-first_match :
      (matches : D → Bool) (h : Heap D) (ps : List ℕ) (xs : List D) (n p : ℕ)
      → Nexts (next_of h) ps n
      → Prevs (prev_of h) p ps
      → Holds (content_of h) ps xs
      → find_loop matches (length xs) h (some (head_or ps n)) ≡ ok (first_match matches xs)
  unfolding find_loop
  find_loop-first_match matches h [] [] n p nx pv ct = refl
  find_loop-first_match matches h [] (x ∷ xs) n p nx pv ct = absurd ct
  find_loop-first_match matches h (a ∷ ps) [] n p nx pv ct = absurd ct
  find_loop-first_match matches h (a ∷ ps) (x ∷ xs) n p nx pv ct =
      let rest = find_loop-first_match matches h ps xs n a nx.1 pv.1 ct.1 in
      let loaded = load_lem h a x (some (head_or ps n)) (some p) ct.0 nx.0 pv.0 in
      elim (Bool-cases (matches x)) [
        | inl found ↦ rw (loaded, ◌>>=◌) (rw found)
        | inr other ↦ rw (loaded, ◌>>=◌) (rw other rest)
      ]

  -- On a list that stands for `xs`, `listFind` does not fault and returns the first element of `xs`
  -- that the callback accepts, or NULL where it accepts none.
  pub list_find-first_match :
      (matches : D → Bool) (h : Heap D) (l : LinkedList) (xs : List D)
      → Represents h l xs
      → list_find matches h l ≡ ok (first_match matches xs)
  unfolding list_find find_loop
  list_find-first_match matches h l [] (root, len) = rw len
  list_find-first_match matches h l (x ∷ xs) (a, ps, root, len, ring) =
      rw (root, len)
        (find_loop-first_match matches h (a ∷ ps) (x ∷ xs) a (last a ps) ring.nexts ring.prevs
          ring.holds)

  -- What `listRelease` hands over, as the list's flag has it
  abbrev pub freed : LinkedList → List D → List D
  freed l xs = if l.freedata then xs else []

  freed-cons :
      (f g : Bool) (x : D) (xs : List D)
      → g ≡ f
      → (if f then x ∷ (if g then xs else []) else (if g then xs else []))
        ≡ (if f then x ∷ xs else [])
  freed-cons f true x xs e = rw (sym e)
  freed-cons f false x xs e = rw (sym e)

  release_nodes-freed :
      (fuel : ℕ) (h : Heap D) (l : LinkedList) (xs : List D)
      → Represents h l xs
      → length xs ≤ fuel
      → (h' : Heap D) × (release_nodes fuel h l ≡ ok (some (freed l xs, h')))
  unfolding release_nodes
  release_nodes-freed zero h l [] (root, len) bound =
      let e : (l.len == 0) ≡ true = ground arith in
      (h, elim (Bool-cases l.freedata) [ inl f ↦ rw (e, f) | inr f ↦ rw (e, f) ])
  release_nodes-freed zero h l (x ∷ xs) rep bound = absurd (omega arith)
  release_nodes-freed (suc fuel) h l [] (root, len) bound =
      let e : (l.len == 0) ≡ true = ground arith in
      (
        h,
        elim (Bool-cases l.freedata) [
          | inl f ↦ rw (f, release_nodes, e)
          | inr f ↦ rw (f, release_nodes, e)
        ],
      )
  release_nodes-freed (suc fuel) h l (x ∷ xs) (a, ps, root, len, ring) bound =
      let e : (l.len == 0) ≡ false = ground arith in
      let (r, run, (is_x, rep, keeps)) =
        remove_head-Represents h l (x ∷ xs) (a, ps, root, len, ring) in
      let (h', rest) = release_nodes-freed fuel r.1 r.2 xs rep (omega arith) in
      (
        h',
        rw (release_nodes, e, run, ◌>>=◌)
            (rw (rest, is_x, ◌>>=◌)
              (ap (λ g. ok (some (g, h'))) (freed-cons l.freedata r.2.freedata x xs keeps.1))),
      )

  -- On a list that stands for `xs`, `listRelease` does not fault and its loop ends within `len`
  -- rounds; where the list has a function that frees, it is called with the elements of `xs` in
  -- order, each once, and otherwise with none.
  pub list_release-freed :
      (h : Heap D) (l : LinkedList) (xs : List D)
      → Represents h l xs
      → (h' : Heap D) × (list_release h l ≡ ok (some (freed l xs, h')))
  unfolding list_release
  list_release-freed h l [] (root, len) = release_nodes-freed l.len h l [] (root, len) (omega arith)
  list_release-freed h l (x ∷ xs) (a, ps, root, len, ring) =
      release_nodes-freed l.len h l (x ∷ xs) (a, ps, root, len, ring) (omega (arith, len))
