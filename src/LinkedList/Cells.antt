-- ===== src/LinkedList/Cells.antt =====
-- The fields of a heap's nodes, and what each access to the heap does to them.
use mathlib.Core.Path.{fun_ext}
use mathlib.Core.Option.{some-injective}
use dictionary.Base.{
  ℕ, zero, suc, ◌<◌, ◌≡◌, refl, sym, ap, ◌∙◌, true, false, Option, none, some, [], ◌∷◌, ◌++◌, ok,
  ◌>>=◌, Returns, put, put-set, at-get_or, get_or, set, get_or-set_self, get_or-set_ne, length,
  length-set, ◌==◌, eq_of_==, Bool-cases, inl, inr, arith,
}
use dictionary.LinkedList.{
  Pointer, Node, Heap, load, store, set_next, set_prev, set_content, release_node, node_new,
}
use dictionary.LinkedList.Chain.{Field, patch}

-- A patch with what is there already
patch-same : {X : Type 0} (f : Field X) (p : ℕ) (v : Option X) → f p ≡ v → patch f p v ≡ f
patch-same f p v e = fun_ext (λ b. elim (Bool-cases (b == p)) [
  | inl same ↦ rw (same, eq_of_== b p same) (sym e)
  | inr ne ↦ rw ne
])

module _ {D : Type 0} where
  abbrev cell : Heap D → Field (Node D)
  cell h b = get_or h b none

  abbrev field_of : {X : Type 0} → (Node D → X) → Option (Node D) → Option X
  field_of f none = none
  field_of f (some n) = some (f n)

  -- The fields `next`, `prev` and `data` over the heap
  abbrev pub next_of : Heap D → Field Pointer
  next_of h b = field_of (λ n. n.next) (cell h b)

  abbrev pub prev_of : Heap D → Field Pointer
  prev_of h b = field_of (λ n. n.prev) (cell h b)

  abbrev pub content_of : Heap D → Field D
  content_of h b = field_of (λ n. n.content) (cell h b)

  cell-set :
      (h : Heap D) (p : ℕ) (v : Option (Node D))
      → p < length h
      → (b : ℕ) → cell (set h p v) b ≡ patch (cell h) p v b
  cell-set h p v inside b = elim (Bool-cases (b == p)) [
    | inl same ↦ rw (same, eq_of_== b p same) (get_or-set_self h p v none inside)
    | inr ne ↦ rw ne (get_or-set_ne h p b v none (λ e. absurd (ground (arith, ne))))
  ]

  cell-push :
      (h : Heap D) (v : Option (Node D)) (b : ℕ)
      → cell (h ++ v ∷ []) b ≡ patch (cell h) (length h) v b
  cell-push [] v zero = refl
  cell-push [] v (suc b) = let e : (suc b == 0) ≡ false = ground arith in rw e
  cell-push (x ∷ h) v zero = let e : (0 == suc (length h)) ≡ false = ground arith in rw e
  cell-push (x ∷ h) v (suc b) =
      let e : (suc b == suc (length h)) ≡ (b == length h) = ground arith in rw e (cell-push h v b)

  cell-lt : (h : Heap D) (p : ℕ) (n : Node D) → cell h p ≡ some n → p < length h
  cell-lt [] p n e = absurd (ground arith)
  cell-lt (x ∷ h) zero n e = omega arith
  cell-lt (x ∷ h) (suc p) n e = omega (arith, cell-lt h p n e)

  field_of-some :
      {X : Type 0} (f : Node D → X) (o : Option (Node D)) (x : X)
      → field_of f o ≡ some x
      → (n : Node D) × (o ≡ some n) × (f n ≡ x)
  field_of-some f none x e = cc
  field_of-some f (some n) x e = (n, refl, cc)

  field_of-patch :
      {X : Type 0} (f : Node D → X) (g : Field (Node D)) (p : ℕ) (v : Option (Node D)) (b : ℕ)
      → field_of f (patch g p v b) ≡ patch (λ c. field_of f (g c)) p (field_of f v) b
  field_of-patch f g p v b = elim (Bool-cases (b == p)) [ inl same ↦ rw same | inr ne ↦ rw ne ]

  -- The three fields after the cell at `p` has become `v`
  abbrev pub Patched : Heap D → ℕ → Option (Node D) → Heap D → Type 0
  Patched h p v h' =
      (next_of h' ≡ patch (next_of h) p (field_of (λ n. n.next) v))
      × (prev_of h' ≡ patch (prev_of h) p (field_of (λ n. n.prev) v))
      × (content_of h' ≡ patch (content_of h) p (field_of (λ n. n.content) v))

  patched :
      (h : Heap D) (p : ℕ) (v : Option (Node D)) (h' : Heap D)
      → ((b : ℕ) → cell h' b ≡ patch (cell h) p v b)
      → Patched h p v h'
  patched h p v h' cells = (at_field _, at_field _, at_field _)
    where
      at_field :
          {X : Type 0} (f : Node D → X)
          → (λ b. field_of f (cell h' b)) ≡ patch (λ b. field_of f (cell h b)) p (field_of f v)
      at_field f = fun_ext (λ b. ap (field_of f) (cells b) ∙ field_of-patch f (cell h) p v b)

  node-eq :
      (n : Node D) (d : D) (q r : Pointer)
      → n.content ≡ d
      → n.next ≡ q
      → n.prev ≡ r
      → n ≡ record { content = d; next = q; prev = r }
  node-eq n d q r c nx pv = λ i. record { content = c i; next = nx i; prev = pv i }

  -- Where a node is, reading gives it.
  load-cell : (h : Heap D) (p : ℕ) (n : Node D) → cell h p ≡ some n → load h (some p) ≡ ok n
  unfolding load
  load-cell h p n e = rw (at-get_or h p none (cell-lt h p n e), e, ◌>>=◌)

  pub load_lem :
      (h : Heap D) (p : ℕ) (d : D) (q r : Pointer)
      → content_of h p ≡ some d
      → next_of h p ≡ some q
      → prev_of h p ≡ some r
      → load h (some p) ≡ ok (record { content = d; next = q; prev = r })
  load_lem h p d q r c nx pv =
      let (n, e, is_d) = field_of-some (λ n. n.content) (cell h p) d c in
      load-cell h p n e
      ∙ ap ok (
          node-eq n d q r is_d (some-injective _ _ (ap (field_of (λ n. n.next)) (sym e) ∙ nx))
            (some-injective _ _ (ap (field_of (λ n. n.prev)) (sym e) ∙ pv)))

  pub content-lt : (h : Heap D) (p : ℕ) (d : D) → content_of h p ≡ some d → p < length h
  content-lt h p d c =
      let (n, e, is_d) = field_of-some (λ n. n.content) (cell h p) d c in cell-lt h p n e

  store_lem :
      (h : Heap D) (p : ℕ) (v : Option (Node D))
      → p < length h
      → (put h p v ≡ ok (set h p v)) × Patched h p v (set h p v)
  store_lem h p v inside = (put-set h p v inside, patched h p v (set h p v) (cell-set h p v inside))

  pub set_next_lem :
      (h : Heap D) (p : ℕ) (q : Pointer) (d : D)
      → content_of h p ≡ some d
      → Returns (set_next h (some p) q) (λ h'.
        (next_of h' ≡ patch (next_of h) p (some q))
        × (prev_of h' ≡ prev_of h)
        × (content_of h' ≡ content_of h)
        × (length h' ≡ length h))
  unfolding set_next store
  set_next_lem h p q d c =
      let (n, e, is_d) = field_of-some (λ n. n.content) (cell h p) d c in
      let v = some (record n { next = q }) in
      let (stored, (nx, pv, ct)) = store_lem h p v (cell-lt h p n e) in
      (
        set h p v,
        rw (load-cell h p n e, ◌>>=◌) stored,
        (
          nx,
          pv ∙ patch-same (prev_of h) p _ (ap (field_of (λ n. n.prev)) e),
          ct ∙ patch-same (content_of h) p _ (ap (field_of (λ n. n.content)) e),
          length-set h p v,
        ),
      )

  pub set_prev_lem :
      (h : Heap D) (p : ℕ) (q : Pointer) (d : D)
      → content_of h p ≡ some d
      → Returns (set_prev h (some p) q) (λ h'.
        (next_of h' ≡ next_of h)
        × (prev_of h' ≡ patch (prev_of h) p (some q))
        × (content_of h' ≡ content_of h)
        × (length h' ≡ length h))
  unfolding set_prev store
  set_prev_lem h p q d c =
      let (n, e, is_d) = field_of-some (λ n. n.content) (cell h p) d c in
      let v = some (record n { prev = q }) in
      let (stored, (nx, pv, ct)) = store_lem h p v (cell-lt h p n e) in
      (
        set h p v,
        rw (load-cell h p n e, ◌>>=◌) stored,
        (
          nx ∙ patch-same (next_of h) p _ (ap (field_of (λ n. n.next)) e),
          pv,
          ct ∙ patch-same (content_of h) p _ (ap (field_of (λ n. n.content)) e),
          length-set h p v,
        ),
      )

  pub set_content_lem :
      (h : Heap D) (p : ℕ) (v d : D)
      → content_of h p ≡ some d
      → Returns (set_content h (some p) v) λ h'.
        (next_of h' ≡ next_of h)
        × (prev_of h' ≡ prev_of h)
        × (content_of h' ≡ patch (content_of h) p (some v))
  unfolding set_content store
  set_content_lem h p v d c =
      let (n, e, is_d) = field_of-some (λ n. n.content) (cell h p) d c in
      let v' = some (record n { content = v }) in
      let (stored, (nx, pv, ct)) = store_lem h p v' (cell-lt h p n e) in
      (
        set h p v',
        rw (load-cell h p n e, ◌>>=◌) stored,
        (
          nx ∙ patch-same (next_of h) p _ (ap (field_of (λ n. n.next)) e),
          pv ∙ patch-same (prev_of h) p _ (ap (field_of (λ n. n.prev)) e),
          ct,
        ),
      )

  pub release_node_lem :
      (h : Heap D) (p : ℕ) (d : D)
      → content_of h p ≡ some d
      → Returns (release_node h (some p)) (λ h'.
        (next_of h' ≡ patch (next_of h) p none)
        × (prev_of h' ≡ patch (prev_of h) p none)
        × (content_of h' ≡ patch (content_of h) p none))
  unfolding release_node
  release_node_lem h p d c =
      let (n, e, is_d) = field_of-some (λ n. n.content) (cell h p) d c in
      let (stored, all) = store_lem h p none (cell-lt h p n e) in
      (set h p none, rw (load-cell h p n e, ◌>>=◌) stored, all)

  -- The new node: behind the heap, without links.
  pub node_new_lem :
      (h : Heap D) (d : D)
      → (h' : Heap D) × (node_new true h d ≡ ok (some (length h), h'))
        × (next_of h' ≡ patch (next_of h) (length h) (some none))
        × (prev_of h' ≡ patch (prev_of h) (length h) (some none))
        × (content_of h' ≡ patch (content_of h) (length h) (some d))
  unfolding node_new
  node_new_lem h d =
      let v = some (record { content = d; next = none; prev = none }) in
      let (nx, pv, ct) = patched h (length h) v (h ++ v ∷ []) (cell-push h v) in
      (h ++ v ∷ [], refl, nx, pv, ct)
