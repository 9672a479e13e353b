-- ===== src/LinkedList/Add.antt =====
-- listAddHead and listAddTail as operations on lists.
use dictionary.Base.{
  ℕ, ◌+◌, ◌%◌, ◌^◌, ◌<◌, ◌≡◌, refl, true, some, List, [], ◌∷◌, ◌++◌, ◌>>=◌, Returns, length,
  length-append, arith,
}
use dictionary.LinkedList.Chain.{last-snoc, Nexts-snoc, Prevs-snoc, Holds-snoc, Distinct-snoc}
use dictionary.LinkedList.Cells.{next_of, prev_of, content_of}
use dictionary.LinkedList.Ring.{IsRing, Represents, IsLinked, link_before-IsLinked, single-IsRing}
use dictionary.LinkedList.{Heap, LinkedList, add_head, add_tail}

-- What an operation leaves alone
abbrev pub KeepsFlags : LinkedList → LinkedList → Type 0
KeepsFlags l l' = (l'.locked ≡ l.locked) × (l'.freedata ≡ l.freedata)

module _ {D : Type 0} where
  front :
      {h' : Heap D} {n a : ℕ} {ps : List ℕ} {d : D} {xs : List D} {h : Heap D}
      → IsRing h a ps xs
      → IsLinked h' n a ps d xs
      → IsRing h' n (a ∷ ps) (d ∷ xs)
  front ring linked = record {
    distinct = (linked.fresh, ring.distinct);
    nexts = (linked.next, linked.nexts);
    prevs = (linked.prev, linked.prevs);
    holds = (linked.content, linked.holds);
  }

  back :
      {h' : Heap D} {n a : ℕ} {ps : List ℕ} {d : D} {xs : List D} {h : Heap D}
      → IsRing h a ps xs
      → IsLinked h' n a ps d xs
      → IsRing h' a (ps ++ n ∷ []) (xs ++ d ∷ [])
  back {h'} {n} {a} {ps} {d} {xs} ring linked = record {
    distinct = Distinct-snoc (a ∷ ps) n linked.fresh ring.distinct;
    nexts = Nexts-snoc (next_of h') (a ∷ ps) n a linked.nexts linked.next;
    prevs = rw (last-snoc a ps n) (Prevs-snoc (prev_of h') n a ps n linked.prevs linked.prev);
    holds = Holds-snoc (content_of h') (a ∷ ps) xs n d linked.holds linked.content;
  }

  module _ (h : Heap D) (l : LinkedList) (d : D) where
    -- On a list that stands for `xs`, where memory is found and the length does not wrap,
    -- `listAddHead` does not fault and gives a list that stands for `d` in front of `xs`, with the
    -- same flags.
    pub add_head-Represents :
        (xs : List D)
        → Represents h l xs
        → length xs + 1 < 2 ^ 64
        → Returns (add_head true h l d) (λ r. Represents r.0 r.1 (d ∷ xs) × KeepsFlags l r.1)
    unfolding add_head
    add_head-Represents [] (root, len) bound =
        let (h0, made, h', run, ring) = single-IsRing h d in
        (
          (h', record l { root = some (length h); len = (l.len + 1) % 2 ^ 64 }),
          simp (made, root, run, ◌>>=◌),
          ((length h, [], refl, omega arith, ring), (refl, refl)),
        )
    add_head-Represents (x ∷ xs) (a, ps, root, len, ring) bound =
        let (h0, made, h', run, linked) = link_before-IsLinked h d a ps x xs ring in
        (
          (h', record l { root = some (length h); len = (l.len + 1) % 2 ^ 64 }),
          simp (made, root, run, ◌>>=◌),
          ((length h, a ∷ ps, refl, omega arith, front ring linked), (refl, refl)),
        )

    -- On a list that stands for `xs`, where memory is found and the length does not wrap,
    -- `listAddTail` does not fault and gives a list that stands for `xs` and `d` behind it, with
    -- the same flags.
    pub add_tail-Represents :
        (xs : List D)
        → Represents h l xs
        → length xs + 1 < 2 ^ 64
        → Returns (add_tail true h l d) (λ r. Represents r.0 r.1 (xs ++ d ∷ []) × KeepsFlags l r.1)
    unfolding add_tail
    add_tail-Represents [] (root, len) bound =
        let (h0, made, h', run, ring) = single-IsRing h d in
        (
          (h', record l { root = some (length h); len = (l.len + 1) % 2 ^ 64 }),
          simp (made, root, run, ◌>>=◌),
          ((length h, [], refl, omega arith, ring), (refl, refl)),
        )
    add_tail-Represents (x ∷ xs) (a, ps, root, len, ring) bound =
        let (h0, made, h', run, linked) = link_before-IsLinked h d a ps x xs ring in
        let longer : length (xs ++ d ∷ []) ≡ length xs + 1 = length-append xs (d ∷ []) in
        (
          (h', record l { len = (l.len + 1) % 2 ^ 64 }),
          simp (made, root, run, ◌>>=◌),
          ((a, ps ++ length h ∷ [], root, omega arith, back ring linked), (refl, refl)),
        )
