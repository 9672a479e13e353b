-- ===== src/LinkedList/Remove.antt =====
-- listRemoveHead and listRemoveTail as operations on lists.
use mathlib.Core.Path.{subst}
use dictionary.Base.{
  ℕ, ◌+◌, ◌-◌, ◌≡◌, refl, sym, ap, ◌∙◌, true, false, Option, none, some, List, [], ◌∷◌, ◌++◌, ok,
  ◌>>=◌, Returns, length, length-append, drop, ◌==◌, arith,
}
use dictionary.LinkedList.Chain.{
  Field, patch, last, head_or, last-snoc, Nexts, Prevs, Nexts-patch, Nexts-retarget, Nexts-unsnoc,
  Prevs-patch, Prevs-retarget, Prevs-unsnoc, Holds, Holds-patch, Distinct-unsnoc,
}
use dictionary.LinkedList.Cells.{
  next_of, prev_of, content_of, load_lem, set_next_lem, set_prev_lem, release_node_lem,
}
use dictionary.LinkedList.Ring.{IsRing, Represents, Holds-last, at_field}
use dictionary.LinkedList.Add.{KeepsFlags}
use dictionary.LinkedList.{
  Heap, LinkedList, load, set_next, set_prev, release_node, remove_head, remove_tail,
}

module _ {D : Type 0} where
  abbrev pub first : List D → Option D
  first [] = none
  first (x ∷ xs) = some x

  -- The writes that take the first node of a ring of several out
  unlink_first :
      (h : Heap D) (a b : ℕ) (qs : List ℕ) (x y : D) (ys : List D)
      → IsRing h a (b ∷ qs) (x ∷ y ∷ ys)
      → (h1 : Heap D) × (set_next h (some (last b qs)) (some b) ≡ ok h1)
        × (h2 : Heap D) × (set_prev h1 (some b) (some (last b qs)) ≡ ok h2)
        × (h' : Heap D) × (release_node h2 (some a) ≡ ok h')
        × IsRing h' b qs (y ∷ ys)
  unlink_first h a b qs x y ys ring =
      let t = last b qs in
      let (dt, ct) = Holds-last (content_of h) b qs (y ∷ ys) ring.holds.1 in
      let (h1, r1, (n1, p1, c1, _)) = set_next_lem h t (some b) dt ct in
      let (h2, r2, (n2, p2, c2, _)) = set_prev_lem h1 b (some t) y (at_field b c1 ring.holds.1.0) in
      let (h3, r3, (n3, p3, c3)) = release_node_lem h2 a x (at_field a (c2 ∙ c1) ring.holds.0) in
      let nexts = n3 ∙ ap (λ f. patch f a none) (n2 ∙ n1) in
      let prevs = p3 ∙ ap (λ f. patch f a none) (p2 ∙ ap (λ f. patch f b (some (some t))) p1) in
      let holds = c3 ∙ ap (λ f. patch f a none) (c2 ∙ c1) in
      let fresh = ring.distinct.0 in
      (
        h1,
        r1,
        h2,
        r2,
        h3,
        r3,
        record {
          distinct = ring.distinct.1;
          nexts =
              subst (λ f. Nexts f (b ∷ qs) b) (sym nexts)
                (Nexts-patch (patch (next_of h) t (some (some b))) a none (b ∷ qs) b fresh
                  (Nexts-retarget (next_of h) b qs a b ring.distinct.1 ring.nexts.1));
          prevs =
              subst (λ f. Prevs f t (b ∷ qs)) (sym prevs)
                (Prevs-patch (patch (prev_of h) b (some (some t))) a none t (b ∷ qs) fresh
                  (Prevs-retarget (prev_of h) b qs a t ring.distinct.1 ring.prevs.1));
          holds =
              subst (λ f. Holds f (b ∷ qs) (y ∷ ys)) (sym holds)
                (Holds-patch (content_of h) a none (b ∷ qs) (y ∷ ys) fresh ring.holds.1);
        },
      )

  module _ (h : Heap D) (l : LinkedList) where
    -- On a list that stands for `xs`, `listRemoveHead` does not fault, returns the first of `xs`, or
    -- NULL where `xs` is empty, and leaves a list that stands for the rest, with the same flags.
    pub remove_head-Represents :
        (xs : List D)
        → Represents h l xs
        → Returns
            (remove_head h l)
            (λ r. (r.0 ≡ first xs) × Represents r.1 r.2 (drop 1 xs) × KeepsFlags l r.2)
    unfolding remove_head
    remove_head-Represents [] (root, len) =
        let e : (l.len == 0) ≡ true = ground arith in
        ((none, h, l), simp e, (refl, (root, len), (refl, refl)))
    remove_head-Represents (x ∷ []) (a, [], root, len, ring) =
        let e : (l.len == 0) ≡ false = ground arith in
        let e1 : (l.len == 1) ≡ true = ground arith in
        let (h', run, _) = release_node_lem h a x ring.holds.0 in
        let loaded = load_lem h a x (some a) (some a) ring.holds.0 ring.nexts.0 ring.prevs.0 in
        (
          (some x, h', record l { root = none; len = l.len - 1 }),
          simp (e, e1, root, loaded, run, ◌>>=◌),
          (refl, (refl, omega arith), (refl, refl)),
        )
    remove_head-Represents (x ∷ []) (a, b ∷ qs, root, len, ring) = absurd (ring.holds.1)
    remove_head-Represents (x ∷ y ∷ ys) (a, [], root, len, ring) = absurd (ring.holds.1)
    remove_head-Represents (x ∷ y ∷ ys) (a, b ∷ qs, root, len, ring) =
        let e : (l.len == 0) ≡ false = ground arith in
        let e1 : (l.len == 1) ≡ false = ground arith in
        let loaded =
          load_lem h a x (some b) (some (last b qs)) ring.holds.0 ring.nexts.0 ring.prevs.0 in
        let (h1, r1, h2, r2, h', r3, ring') = unlink_first h a b qs x y ys ring in
        (
          (some x, h', record l { root = some b; len = l.len - 1 }),
          simp (e, e1, root, loaded, r1, r2, r3, ◌>>=◌),
          (refl, (b, qs, refl, omega arith, ring'), (refl, refl)),
        )

  Holds-unsnoc :
      (f : Field D) (ps : List ℕ) (xs : List D) (d : D)
      → Holds f ps (xs ++ d ∷ [])
      → (qs : List ℕ) × (t : ℕ) × (ps ≡ qs ++ t ∷ []) × Holds f qs xs × (f t ≡ some d)
  Holds-unsnoc f [] [] d c = absurd c
  Holds-unsnoc f [] (x ∷ xs) d c = absurd c
  Holds-unsnoc f (p ∷ []) [] d c = ([], p, refl, tt, c.0)
  Holds-unsnoc f (p ∷ q ∷ ps) [] d c = absurd (c.1)
  Holds-unsnoc f (p ∷ ps) (x ∷ xs) d c =
      let (qs, t, e, held, at_t) = Holds-unsnoc f ps xs d c.1 in
      (p ∷ qs, t, ap (λ r. p ∷ r) e, (c.0, held), at_t)

  -- The writes that take the last node of a ring of several out
  unlink_last :
      (h : Heap D) (a t : ℕ) (qs : List ℕ) (x d : D) (xs : List D)
      → IsRing h a (qs ++ t ∷ []) (x ∷ xs ++ d ∷ [])
      → Holds (content_of h) qs xs
      → content_of h t ≡ some d
      → (load h (some a)
          ≡ ok (record { content = x; next = some (head_or (qs ++ t ∷ []) a); prev = some t }))
        × (load h (some t) ≡ ok (record { content = d; next = some a; prev = some (last a qs) }))
        × (h1 : Heap D) × (set_prev h (some a) (some (last a qs)) ≡ ok h1)
        × (h2 : Heap D) × (set_next h1 (some (last a qs)) (some a) ≡ ok h2)
        × (h' : Heap D) × (release_node h2 (some t) ≡ ok h')
        × IsRing h' a qs (x ∷ xs)
  unlink_last h a t qs x d xs ring held at_t =
      let p = last a qs in
      let q = last a (qs ++ t ∷ []) in
      let holds0 : Holds (content_of h) (a ∷ qs) (x ∷ xs) = (ring.holds.0, held) in
      let (nexts0, nt) = Nexts-unsnoc (next_of h) (a ∷ qs) t a ring.nexts in
      let (prevs0, pt) = Prevs-unsnoc (prev_of h) q a qs t ring.prevs in
      let (fresh, distinct0) = Distinct-unsnoc (a ∷ qs) t ring.distinct in
      let (dp, cp) = Holds-last (content_of h) a qs (x ∷ xs) holds0 in
      let (h1, r1, (n1, p1, c1, _)) = set_prev_lem h a (some p) x ring.holds.0 in
      let (h2, r2, (n2, p2, c2, _)) = set_next_lem h1 p (some a) dp (at_field p c1 cp) in
      let (h3, r3, (n3, p3, c3)) = release_node_lem h2 t d (at_field t (c2 ∙ c1) at_t) in
      let nexts = n3 ∙ ap (λ f. patch f t none) (n2 ∙ ap (λ f. patch f p (some (some a))) n1) in
      let prevs = p3 ∙ ap (λ f. patch f t none) (p2 ∙ p1) in
      let holds = c3 ∙ ap (λ f. patch f t none) (c2 ∙ c1) in
      (
        load_lem h a x (some (head_or (qs ++ t ∷ []) a)) (some t) ring.holds.0 ring.nexts.0
            (ring.prevs.0 ∙ ap (λ b. some (some b)) (last-snoc a qs t)),
        load_lem h t d (some a) (some p) at_t nt pt,
        h1,
        r1,
        h2,
        r2,
        h3,
        r3,
        record {
          distinct = distinct0;
          nexts =
              subst (λ f. Nexts f (a ∷ qs) a) (sym nexts)
                (Nexts-patch (patch (next_of h) p (some (some a))) t none (a ∷ qs) a fresh
                  (Nexts-retarget (next_of h) a qs t a distinct0 nexts0));
          prevs =
              subst (λ f. Prevs f p (a ∷ qs)) (sym prevs)
                (Prevs-patch (patch (prev_of h) a (some (some p))) t none p (a ∷ qs) fresh
                  (Prevs-retarget (prev_of h) a qs q p distinct0 prevs0));
          holds =
              subst (λ f. Holds f (a ∷ qs) (x ∷ xs)) (sym holds)
                (Holds-patch (content_of h) t none (a ∷ qs) (x ∷ xs) fresh holds0);
        },
      )

  module _ (h : Heap D) (l : LinkedList) where
    -- On a list that stands for no element, `listRemoveTail` returns NULL and changes nothing.
    pub remove_tail-nil : Represents h l [] → remove_tail h l ≡ ok (none, h, l)
    unfolding remove_tail
    remove_tail-nil (root, len) = let e : (l.len == 0) ≡ true = ground arith in simp e

    -- On a list that stands for `xs` and `d` behind it, `listRemoveTail` does not fault, returns `d`
    -- and leaves a list that stands for `xs`, with the same flags.
    pub remove_tail-Represents :
        (xs : List D) (d : D)
        → Represents h l (xs ++ d ∷ [])
        → Returns (remove_tail h l) (λ r. (r.0 ≡ some d) × Represents r.1 r.2 xs × KeepsFlags l r.2)
    unfolding remove_tail
    remove_tail-Represents [] d (a, [], root, len, ring) =
        let e : (l.len == 0) ≡ false = ground arith in
        let e1 : (l.len == 1) ≡ true = ground arith in
        let (h', run, _) = release_node_lem h a d ring.holds.0 in
        let loaded = load_lem h a d (some a) (some a) ring.holds.0 ring.nexts.0 ring.prevs.0 in
        (
          (some d, h', record l { root = none; len = l.len - 1 }),
          simp (e, e1, root, loaded, run, ◌>>=◌),
          (refl, (refl, omega arith), (refl, refl)),
        )
    remove_tail-Represents [] d (a, b ∷ qs, root, len, ring) = absurd (ring.holds.1)
    remove_tail-Represents (x ∷ xs) d (a, ps, root, len, ring) =
        let longer : length (xs ++ d ∷ []) ≡ length xs + 1 = length-append xs (d ∷ []) in
        let e : (l.len == 0) ≡ false = ground arith in
        let e1 : (l.len == 1) ≡ false = ground arith in
        let (qs, t, is_ps, held, at_t) = Holds-unsnoc (content_of h) ps xs d ring.holds.1 in
        let ring0 = subst (λ ps. IsRing h a ps (x ∷ xs ++ d ∷ [])) is_ps ring in
        let (la, lt, h1, r1, h2, r2, h', r3, ring') = unlink_last h a t qs x d xs ring0 held at_t in
        (
          (some d, h', record l { len = l.len - 1 }),
          simp (e, e1, root, la, lt, r1, r2, r3, ◌>>=◌),
          (refl, (a, qs, root, omega arith, ring'), (refl, refl)),
        )
