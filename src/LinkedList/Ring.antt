-- ===== src/LinkedList/Ring.antt =====
-- The list as a ring of nodes, and what adding to it does.
use mathlib.Core.Path.{subst}
use dictionary.Base.{
  ℕ, ◌≡◌, sym, ap, ◌∙◌, true, Option, none, some, List, [], ◌∷◌, ok, ◌>>=◌, Returns, length, arith,
}
use dictionary.LinkedList.Cells.{
  next_of, prev_of, content_of, load_lem, content-lt, set_next_lem, set_prev_lem, node_new_lem,
}
use dictionary.LinkedList.Chain.{
  Field, patch, patch_here, ne_sym, Fresh, Distinct, last, head_or, Nexts, Prevs, Holds, Fresh-last,
  Nexts-patch, Prevs-patch, Holds-patch, Nexts-retarget, Prevs-retarget,
}
use dictionary.LinkedList.{Pointer, Heap, LinkedList, node_new, link_self, link_before}

-- A field's value through an equation of fields
pub at_field : {X : Type 0} {f g : Field X} {v : Option X} (p : ℕ) → f ≡ g → g p ≡ v → f p ≡ v
at_field p e h = ap (λ f. f p) e ∙ h

module _ {D : Type 0} where
  -- The nodes at `a` and `ps` are linked in a circle and hold `xs`.
  pub record IsRing (h : Heap D) (a : ℕ) (ps : List ℕ) (xs : List D) : Type 0 where
    pub distinct : Distinct (a ∷ ps)
    pub nexts : Nexts (next_of h) (a ∷ ps) a
    pub prevs : Prevs (prev_of h) (last a ps) (a ∷ ps)
    pub holds : Holds (content_of h) (a ∷ ps) xs

  -- The list stands for `xs`, from the root on.
  abbrev pub Represents : Heap D → LinkedList → List D → Type 0
  Represents h l [] = (l.root ≡ none) × (l.len ≡ 0)
  Represents h l (x ∷ xs) =
      (a : ℕ) × (ps : List ℕ) × (l.root ≡ some a)
      × (l.len ≡ length (x ∷ xs))
      × IsRing h a ps (x ∷ xs)

  pub Holds-Fresh :
      (h : Heap D) (ps : List ℕ) (xs : List D) → Holds (content_of h) ps xs → Fresh (length h) ps
  Holds-Fresh h [] xs c = tt
  Holds-Fresh h (a ∷ ps) [] c = absurd c
  Holds-Fresh h (a ∷ ps) (x ∷ xs) c =
      let inside = content-lt h a x c.0 in (ground arith, Holds-Fresh h ps xs c.1)

  pub Holds-last :
      (f : Field D) (a : ℕ) (ps : List ℕ) (xs : List D)
      → Holds f (a ∷ ps) xs
      → (d : D) × (f (last a ps) ≡ some d)
  Holds-last f a ps [] c = absurd c
  Holds-last f a [] (x ∷ xs) c = (x, c.0)
  Holds-last f a (b ∷ ps) (x ∷ xs) c = Holds-last f b ps xs c.1

  -- The four writes that put the node `n` between `t` and `a`.
  link_before_lem :
      (h : Heap D) (n a t : ℕ) (d da dt : D) (q : Pointer)
      → content_of h n ≡ some d
      → content_of h a ≡ some da
      → content_of h t ≡ some dt
      → next_of h a ≡ some q
      → prev_of h a ≡ some (some t)
      → Returns (link_before h (some a) (some n)) (λ h'.
        (next_of h' ≡ patch (patch (next_of h) n (some (some a))) t (some (some n)))
        × (prev_of h' ≡ patch (patch (prev_of h) n (some (some t))) a (some (some n)))
        × (content_of h' ≡ content_of h))
  unfolding link_before
  link_before_lem h n a t d da dt q cn ca ct nx pv =
      let (h1, r1, (n1, p1, c1, _)) = set_next_lem h n (some a) d cn in
      let (h2, r2, (n2, p2, c2, _)) = set_prev_lem h1 n (some t) d (at_field n c1 cn) in
      let (h3, r3, (n3, p3, c3, _)) = set_next_lem h2 t (some n) dt (at_field t (c2 ∙ c1) ct) in
      let (h4, r4, (n4, p4, c4, _)) =
        set_prev_lem h3 a (some n) da (at_field a (c3 ∙ c2 ∙ c1) ca) in
      (
        h4,
        rw (load_lem h a da q (some t) ca nx pv, ◌>>=◌)
            (rw (r1, ◌>>=◌) (rw (r2, ◌>>=◌) (rw (r3, ◌>>=◌) r4))),
        (
          n4 ∙ n3 ∙ ap (λ f. patch f t (some (some n))) (n2 ∙ n1),
          p4
              ∙ ap (λ f. patch f a (some (some n)))
                  (p3 ∙ p2 ∙ ap (λ f. patch f n (some (some t))) p1),
          c4 ∙ c3 ∙ c2 ∙ c1,
        ),
      )

  -- A new node between the last node and the first of a ring: what the chains are then.
  pub record IsLinked (h' : Heap D) (n a : ℕ) (ps : List ℕ) (d : D) (xs : List D) : Type 0 where
    pub nexts : Nexts (next_of h') (a ∷ ps) n
    pub next : next_of h' n ≡ some (some a)
    pub prevs : Prevs (prev_of h') n (a ∷ ps)
    pub prev : prev_of h' n ≡ some (some (last a ps))
    pub holds : Holds (content_of h') (a ∷ ps) xs
    pub content : content_of h' n ≡ some d
    pub fresh : Fresh n (a ∷ ps)

  pub link_before-IsLinked :
      (h : Heap D) (d : D) (a : ℕ) (ps : List ℕ) (x : D) (xs : List D)
      → IsRing h a ps (x ∷ xs)
      → (h0 : Heap D) × (node_new true h d ≡ ok (some (length h), h0))
        × (h' : Heap D) × (link_before h0 (some a) (some (length h)) ≡ ok h')
        × IsLinked h' (length h) a ps d (x ∷ xs)
  link_before-IsLinked h d a ps x xs ring =
      let n = length h in
      let t = last a ps in
      let fresh = Holds-Fresh h (a ∷ ps) (x ∷ xs) ring.holds in
      let (h0, made, n0, p0, c0) = node_new_lem h d in
      let ne_a = fresh.0 in
      let ne_t = Fresh-last n a ps fresh in
      let (dt, ct) = Holds-last (content_of h) a ps (x ∷ xs) ring.holds in
      let (h', run, (nx, pv, cs)) =
        link_before_lem h0 n a t d x dt (some (head_or ps a))
          (at_field n c0 (patch_here (content_of h) n (some d)))
          (at_field a c0 (rw ne_a (ring.holds.0))) (at_field t c0 (rw ne_t ct))
          (at_field a n0 (rw ne_a (ring.nexts.0))) (at_field a p0 (rw ne_a (ring.prevs.0))) in
      let nexts = nx ∙ ap (λ f. patch (patch f n (some (some a))) t (some (some n))) n0 in
      let prevs = pv ∙ ap (λ f. patch (patch f n (some (some t))) a (some (some n))) p0 in
      let contents = cs ∙ c0 in
      let f1 = patch (next_of h) n (some none) in
      let f2 = patch f1 n (some (some a)) in
      let g1 = patch (prev_of h) n (some none) in
      let g2 = patch g1 n (some (some t)) in
      let nexts1 = Nexts-patch (next_of h) n (some none) (a ∷ ps) a fresh ring.nexts in
      let nexts2 = Nexts-patch f1 n (some (some a)) (a ∷ ps) a fresh nexts1 in
      let prevs1 = Prevs-patch (prev_of h) n (some none) t (a ∷ ps) fresh ring.prevs in
      let prevs2 = Prevs-patch g1 n (some (some t)) t (a ∷ ps) fresh prevs1 in
      (
        h0,
        made,
        h',
        run,
        record {
          nexts =
              subst (λ f. Nexts f (a ∷ ps) n) (sym nexts)
                (Nexts-retarget f2 a ps a n ring.distinct nexts2);
          next = at_field n nexts (rw (ne_sym t n ne_t) (patch_here f1 n (some (some a))));
          prevs =
              subst (λ f. Prevs f n (a ∷ ps)) (sym prevs)
                (Prevs-retarget g2 a ps t n ring.distinct prevs2);
          prev = at_field n prevs (rw (ne_sym a n ne_a) (patch_here g1 n (some (some t))));
          holds =
              subst (λ f. Holds f (a ∷ ps) (x ∷ xs)) (sym contents)
                (Holds-patch (content_of h) n (some d) (a ∷ ps) (x ∷ xs) fresh ring.holds);
          content = at_field n contents (patch_here (content_of h) n (some d));
          fresh = fresh;
        },
      )

  -- A list of one node, made on any heap
  pub single-IsRing :
      (h : Heap D) (d : D)
      → (h0 : Heap D) × (node_new true h d ≡ ok (some (length h), h0))
        × (h' : Heap D) × (link_self h0 (some (length h)) ≡ ok h')
        × IsRing h' (length h) [] (d ∷ [])
  unfolding link_self
  single-IsRing h d =
      let n = length h in
      let (h0, made, n0, p0, c0) = node_new_lem h d in
      let c = at_field n c0 (patch_here (content_of h) n (some d)) in
      let (h1, r1, (n1, p1, c1, _)) = set_prev_lem h0 n (some n) d c in
      let (h2, r2, (n2, p2, c2, _)) = set_next_lem h1 n (some n) d (at_field n c1 c) in
      (
        h0,
        made,
        h2,
        rw (r1, ◌>>=◌) r2,
        record {
          distinct = (tt, tt);
          nexts = (at_field n n2 (patch_here (next_of h1) n (some (some n))), tt);
          prevs = (at_field n (p2 ∙ p1) (patch_here (prev_of h0) n (some (some n))), tt);
          holds = (at_field n (c2 ∙ c1) c, tt);
        },
      )
