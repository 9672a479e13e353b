-- ===== src/LinkedList/Chain.antt =====
-- Chains of addresses under a field of the nodes, apart from any heap.

use dictionary.Base.{
  ℕ, ◌≡◌, refl, false, Option, some, List, [], ◌∷◌, ◌++◌, All, ◌==◌, ==_refl, if◌then◌else◌, arith,
}
use dictionary.LinkedList.{Pointer}

-- A field of all nodes: nothing where no node is.
abbrev pub Field : Type 0 → Type 0
Field X = ℕ → Option X

abbrev pub patch {ℓ} : {X : Type ℓ} → (ℕ → X) → ℕ → X → ℕ → X
patch f p v b = if b == p then v else f b

abbrev pub Fresh : ℕ → List ℕ → Type 0
Fresh p ps = All (λ b. (b == p) ≡ false) ps

abbrev pub Distinct : List ℕ → Type 0
Distinct [] = Unit
Distinct (a ∷ ps) = Fresh a ps × Distinct ps

abbrev pub last : ℕ → List ℕ → ℕ
last a [] = a
last a (b ∷ ps) = last b ps

abbrev pub head_or : List ℕ → ℕ → ℕ
head_or [] n = n
head_or (a ∷ ps) n = a

-- `next` leads through the addresses in order and from the last to `n`.
abbrev pub Nexts : Field Pointer → List ℕ → ℕ → Type 0
Nexts f [] n = Unit
Nexts f (a ∷ ps) n = (f a ≡ some (some (head_or ps n))) × Nexts f ps n

-- `prev` leads back from each address to the one before, and from the first to `p`.
abbrev pub Prevs : Field Pointer → ℕ → List ℕ → Type 0
Prevs f p [] = Unit
Prevs f p (a ∷ ps) = (f a ≡ some (some p)) × Prevs f a ps

abbrev pub Holds : {D : Type 0} → Field D → List ℕ → List D → Type 0
Holds f [] [] = Unit
Holds f [] (d ∷ ds) = ⊥
Holds f (a ∷ ps) [] = ⊥
Holds f (a ∷ ps) (d ∷ ds) = (f a ≡ some d) × Holds f ps ds

pub patch_here : {X : Type 0} (f : ℕ → X) (p : ℕ) (v : X) → patch f p v p ≡ v
patch_here f p v = rw (==_refl p)

pub ne_sym : (a b : ℕ) → (a == b) ≡ false → (b == a) ≡ false
ne_sym a b h = ground arith

pub Fresh-last : (p a : ℕ) (ps : List ℕ) → Fresh p (a ∷ ps) → (last a ps == p) ≡ false
Fresh-last p a [] h = h.0
Fresh-last p a (b ∷ ps) h = Fresh-last p b ps h.1

pub Nexts-patch :
    (f : Field Pointer) (p : ℕ) (v : Option Pointer) (ps : List ℕ) (n : ℕ)
    → Fresh p ps
    → Nexts f ps n
    → Nexts (patch f p v) ps n
Nexts-patch f p v [] n h c = tt
Nexts-patch f p v (a ∷ ps) n h c = (rw (h.0) (c.0), Nexts-patch f p v ps n h.1 c.1)

pub Prevs-patch :
    (f : Field Pointer) (p : ℕ) (v : Option Pointer) (q : ℕ) (ps : List ℕ)
    → Fresh p ps
    → Prevs f q ps
    → Prevs (patch f p v) q ps
Prevs-patch f p v q [] h c = tt
Prevs-patch f p v q (a ∷ ps) h c = (rw (h.0) (c.0), Prevs-patch f p v a ps h.1 c.1)

pub Holds-patch :
    {D : Type 0} (f : Field D) (p : ℕ) (v : Option D) (ps : List ℕ) (ds : List D)
    → Fresh p ps
    → Holds f ps ds
    → Holds (patch f p v) ps ds
Holds-patch f p v [] [] h c = tt
Holds-patch f p v [] (d ∷ ds) h c = c
Holds-patch f p v (a ∷ ps) [] h c = c
Holds-patch f p v (a ∷ ps) (d ∷ ds) h c = (rw (h.0) (c.0), Holds-patch f p v ps ds h.1 c.1)

-- The last address gets another successor.
pub Nexts-retarget :
    (f : Field Pointer) (a : ℕ) (ps : List ℕ) (n m : ℕ)
    → Distinct (a ∷ ps)
    → Nexts f (a ∷ ps) n
    → Nexts (patch f (last a ps) (some (some m))) (a ∷ ps) m
Nexts-retarget f a [] n m d c = (patch_here f a (some (some m)), tt)
Nexts-retarget f a (b ∷ ps) n m d c =
    (rw (ne_sym _ a (Fresh-last a b ps d.0)) (c.0), Nexts-retarget f b ps n m d.1 c.1)

-- The first address gets another predecessor.
pub Prevs-retarget :
    (f : Field Pointer) (a : ℕ) (ps : List ℕ) (p q : ℕ)
    → Distinct (a ∷ ps)
    → Prevs f p (a ∷ ps)
    → Prevs (patch f a (some (some q))) q (a ∷ ps)
Prevs-retarget f a ps p q d c =
    (patch_here f a (some (some q)), Prevs-patch f a (some (some q)) a ps d.0 c.1)

pub Nexts-snoc :
    (f : Field Pointer) (ps : List ℕ) (n m : ℕ)
    → Nexts f ps n
    → f n ≡ some (some m)
    → Nexts f (ps ++ n ∷ []) m
Nexts-snoc f [] n m c e = (e, tt)
Nexts-snoc f (a ∷ []) n m c e = (c.0, (e, tt))
Nexts-snoc f (a ∷ b ∷ ps) n m c e = (c.0, Nexts-snoc f (b ∷ ps) n m c.1 e)

pub Nexts-unsnoc :
    (f : Field Pointer) (ps : List ℕ) (n m : ℕ)
    → Nexts f (ps ++ n ∷ []) m
    → Nexts f ps n × (f n ≡ some (some m))
Nexts-unsnoc f [] n m c = (tt, c.0)
Nexts-unsnoc f (a ∷ []) n m c = ((c.0, tt), c.1.0)
Nexts-unsnoc f (a ∷ b ∷ ps) n m c =
    let (rest, e) = Nexts-unsnoc f (b ∷ ps) n m c.1 in ((c.0, rest), e)

pub Prevs-snoc :
    (f : Field Pointer) (p a : ℕ) (ps : List ℕ) (n : ℕ)
    → Prevs f p (a ∷ ps)
    → f n ≡ some (some (last a ps))
    → Prevs f p (a ∷ ps ++ n ∷ [])
Prevs-snoc f p a [] n c e = (c.0, (e, tt))
Prevs-snoc f p a (b ∷ ps) n c e = (c.0, Prevs-snoc f a b ps n c.1 e)

pub Prevs-unsnoc :
    (f : Field Pointer) (p a : ℕ) (ps : List ℕ) (n : ℕ)
    → Prevs f p (a ∷ ps ++ n ∷ [])
    → Prevs f p (a ∷ ps) × (f n ≡ some (some (last a ps)))
Prevs-unsnoc f p a [] n c = ((c.0, tt), c.1.0)
Prevs-unsnoc f p a (b ∷ ps) n c = let (rest, e) = Prevs-unsnoc f a b ps n c.1 in ((c.0, rest), e)

pub Holds-snoc :
    {D : Type 0} (f : Field D) (ps : List ℕ) (ds : List D) (n : ℕ) (d : D)
    → Holds f ps ds
    → f n ≡ some d
    → Holds f (ps ++ n ∷ []) (ds ++ d ∷ [])
Holds-snoc f [] [] n d c e = (e, tt)
Holds-snoc f [] (x ∷ ds) n d c e = absurd c
Holds-snoc f (a ∷ ps) [] n d c e = absurd c
Holds-snoc f (a ∷ ps) (x ∷ ds) n d c e = (c.0, Holds-snoc f ps ds n d c.1 e)

pub Fresh-snoc :
    (p : ℕ) (ps : List ℕ) (n : ℕ) → Fresh p ps → (n == p) ≡ false → Fresh p (ps ++ n ∷ [])
Fresh-snoc p [] n h e = (e, tt)
Fresh-snoc p (a ∷ ps) n h e = (h.0, Fresh-snoc p ps n h.1 e)

pub Distinct-snoc : (ps : List ℕ) (n : ℕ) → Fresh n ps → Distinct ps → Distinct (ps ++ n ∷ [])
Distinct-snoc [] n h d = (tt, tt)
Distinct-snoc (a ∷ ps) n h d = (Fresh-snoc a ps n d.0 (ne_sym a n h.0), Distinct-snoc ps n h.1 d.1)

Fresh-unsnoc :
    (p : ℕ) (ps : List ℕ) (n : ℕ) → Fresh p (ps ++ n ∷ []) → ((n == p) ≡ false) × Fresh p ps
Fresh-unsnoc p [] n h = (h.0, tt)
Fresh-unsnoc p (a ∷ ps) n h = let (e, rest) = Fresh-unsnoc p ps n h.1 in (e, (h.0, rest))

pub Distinct-unsnoc : (ps : List ℕ) (n : ℕ) → Distinct (ps ++ n ∷ []) → Fresh n ps × Distinct ps
Distinct-unsnoc [] n d = (tt, tt)
Distinct-unsnoc (a ∷ ps) n d =
    let (fresh, rest) = Distinct-unsnoc ps n d.1 in
    let (ne, others) = Fresh-unsnoc a ps n d.0 in ((ne_sym n a ne, fresh), (others, rest))

pub last-snoc : (a : ℕ) (ps : List ℕ) (n : ℕ) → last a (ps ++ n ∷ []) ≡ n
last-snoc a [] n = refl
last-snoc a (b ∷ ps) n = last-snoc b ps n
