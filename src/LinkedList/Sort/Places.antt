-- ===== src/LinkedList/Sort/Places.antt =====
-- A ring of nodes as an array, and back.
use dictionary.Base.{
  ℕ, zero, suc, ◌+◌, ◌-◌, ◌<◌, ◌≡◌, refl, ap, ◌∙◌, false, some, List, [], ◌∷◌, ◌==◌, Bool-cases,
  inl, inr, eq_of_==, length, get_or, arith,
}
use dictionary.LinkedList.{Pointer, Heap}
use dictionary.LinkedList.Cells.{next_of, prev_of, content_of}
use dictionary.LinkedList.Chain.{Field, Fresh, Distinct, last, head_or, Nexts, Prevs, Holds}
use dictionary.LinkedList.Ring.{IsRing}
use dictionary.LinkedList.Sort.Array.{before, IsApart, IsLinked, Contents}
use dictionary.LinkedList.Sort.Exchange.{tabulate}

-- The address at a place
abbrev pub address : List ℕ → ℕ → ℕ
address qs k = get_or qs k 0

Fresh-address :
    (p : ℕ) (qs : List ℕ) (k : ℕ) → k < length qs → Fresh p qs → (address qs k == p) ≡ false
Fresh-address p [] k h f = absurd (omega arith)
Fresh-address p (q ∷ qs) zero h f = f.0
Fresh-address p (q ∷ qs) (suc k) h f = Fresh-address p qs k (omega arith) f.1

pub Distinct-IsApart : (qs : List ℕ) → Distinct qs → IsApart (length qs) (address qs)
Distinct-IsApart [] d j k hj hk e = absurd (omega arith)
Distinct-IsApart (q ∷ qs) d zero zero hj hk e = refl
Distinct-IsApart (q ∷ qs) d zero (suc k) hj hk e =
    let f = Fresh-address q qs k (omega arith) d.0 in absurd (ground arith)
Distinct-IsApart (q ∷ qs) d (suc j) zero hj hk e =
    let f = Fresh-address q qs j (omega arith) d.0 in absurd (ground arith)
Distinct-IsApart (q ∷ qs) d (suc j) (suc k) hj hk e =
    ap suc (Distinct-IsApart qs d.1 j k (omega arith) (omega arith) e)

head_or-address : (qs : List ℕ) (m : ℕ) → 0 < length qs → head_or qs m ≡ address qs 0
head_or-address [] m h = absurd (omega arith)
head_or-address (q ∷ qs) m h = refl

next_address :
    (f : Field Pointer) (qs : List ℕ) (m k : ℕ)
    → suc k < length qs
    → Nexts f qs m
    → f (address qs k) ≡ some (some (address qs (suc k)))
next_address f [] m k h c = absurd (omega arith)
next_address f (q ∷ qs) m zero h c =
    c.0 ∙ ap (λ x. some (some x)) (head_or-address qs m (omega arith))
next_address f (q ∷ qs) m (suc k) h c = next_address f qs m k (omega arith) c.1

next_wrap :
    (f : Field Pointer) (qs : List ℕ) (m k : ℕ)
    → k + 1 ≡ length qs
    → Nexts f qs m
    → f (address qs k) ≡ some (some m)
next_wrap f [] m k h c = absurd (omega arith)
next_wrap f (q ∷ []) m zero h c = c.0
next_wrap f (q ∷ r ∷ qs) m zero h c = absurd (omega arith)
next_wrap f (q ∷ qs) m (suc k) h c = next_wrap f qs m k (omega arith) c.1

prev_address :
    (f : Field Pointer) (p : ℕ) (qs : List ℕ) (k : ℕ)
    → suc k < length qs
    → Prevs f p qs
    → f (address qs (suc k)) ≡ some (some (address qs k))
prev_address f p [] k h c = absurd (omega arith)
prev_address f p (q ∷ []) k h c = absurd (omega arith)
prev_address f p (q ∷ r ∷ qs) zero h c = c.1.0
prev_address f p (q ∷ r ∷ qs) (suc k) h c = prev_address f q (r ∷ qs) k (omega arith) c.1

last-address : (a : ℕ) (ps : List ℕ) → last a ps ≡ address (a ∷ ps) (length ps)
last-address a [] = refl
last-address a (b ∷ ps) = last-address b ps

module _ {D : Type 0} where
  Holds-address :
      (f : Field D) (qs : List ℕ) (xs : List D) (d : D) (k : ℕ)
      → k < length qs
      → Holds f qs xs
      → f (address qs k) ≡ some (get_or xs k d)
  Holds-address f [] xs d k h c = absurd (omega arith)
  Holds-address f (q ∷ qs) [] d k h c = absurd c
  Holds-address f (q ∷ qs) (x ∷ xs) d zero h c = c.0
  Holds-address f (q ∷ qs) (x ∷ xs) d (suc k) h c = Holds-address f qs xs d k (omega arith) c.1

  pub Holds-length :
      (f : Field D) (qs : List ℕ) (xs : List D) → Holds f qs xs → length qs ≡ length xs
  Holds-length f [] [] c = refl
  Holds-length f [] (x ∷ xs) c = absurd c
  Holds-length f (q ∷ qs) [] c = absurd c
  Holds-length f (q ∷ qs) (x ∷ xs) c = ap suc (Holds-length f qs xs c.1)

  pub Holds-tabulate :
      (f : Field D) (qs : List ℕ) (g : ℕ → D)
      → ((k : ℕ) → k < length qs → f (address qs k) ≡ some (g k))
      → Holds f qs (tabulate (length qs) g)
  unfolding tabulate
  Holds-tabulate f [] g h = tt
  Holds-tabulate f (q ∷ qs) g h =
      (h 0 (omega arith), Holds-tabulate f qs (λ k. g (suc k)) (λ k i. h (suc k) (omega arith)))

  pub tabulate-get_or : (xs : List D) (d : D) → tabulate (length xs) (λ k. get_or xs k d) ≡ xs
  unfolding tabulate
  tabulate-get_or [] d = refl
  tabulate-get_or (x ∷ xs) d = ap (λ r. x ∷ r) (tabulate-get_or xs d)

  pub IsRing-IsLinked :
      (h : Heap D) (a : ℕ) (ps : List ℕ) (xs : List D)
      → IsRing h a ps xs
      → IsLinked (length (a ∷ ps)) (address (a ∷ ps)) h
  IsRing-IsLinked h a ps xs ring = record {
    next = λ k i. elim (Bool-cases (k + 1 == length (a ∷ ps))) [
      | inl e ↦ rw e (next_wrap (next_of h) (a ∷ ps) a k (eq_of_== _ _ e) ring.nexts)
      | inr ne ↦
          let e : k + 1 ≡ suc k = omega arith in
          rw ne (rw e (next_address (next_of h) (a ∷ ps) a k (ground arith) ring.nexts))
    ];
    prev = λ k i. go k i;
  }
    where
      go :
          (k : ℕ)
          → k < length (a ∷ ps)
          → prev_of h (address (a ∷ ps) k)
            ≡ some (some (address (a ∷ ps) (before (length (a ∷ ps)) k)))
      go zero i =
          let e : suc (length ps) - 1 ≡ length ps = omega arith in
          rw e (ring.prevs.0 ∙ ap (λ q. some (some q)) (last-address a ps))
      go (suc k) i =
          let ne : (suc k == 0) ≡ false = ground arith in
          let e : suc k - 1 ≡ k = omega arith in
          rw (ne, e) (prev_address (prev_of h) (last a ps) (a ∷ ps) k i ring.prevs)

  pub IsRing-Contents :
      (h : Heap D) (a : ℕ) (ps : List ℕ) (xs : List D) (d : D)
      → IsRing h a ps xs
      → Contents (length (a ∷ ps)) (address (a ∷ ps)) h (λ k. get_or xs k d)
  IsRing-Contents h a ps xs d ring k i = Holds-address (content_of h) (a ∷ ps) xs d k i ring.holds
