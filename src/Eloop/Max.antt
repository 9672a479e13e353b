-- ===== src/Eloop/Max.antt =====
-- `el->max` is the highest descriptor with an event, or -1, whatever is added and deleted.
use dictionary.Base.Int.{ℤ, pos, negsuc, above}
use dictionary.Base.{
  ℕ, zero, suc, ◌≤◌, ◌<◌, ◌≡◌, ◌≢◌, refl, sym, Bool, true, false, List, [], ◌∷◌, ok, ◌>>=◌, Returns,
  at, arith, set, length, replicate, length-replicate, ◌==◌, if◌then◌else◌, Bool-cases, eq_of_==,
  inl, inr, ◌&&◌, ◌||◌, not, ◌⊎◌,
}
use dictionary.Eloop.{Mask, evt_add, union, without, is_add, Evt, Eloop, create, scan, lower_max}

negsuc≢pos : (n m : ℕ) → negsuc n ≢ pos m
negsuc≢pos n m e = cc

pub pos-injective : (n m : ℕ) → pos n ≡ pos m → n ≡ m
pos-injective n m e = cc

-- Flags that stay flags whatever is added, field by field.
is_add-union : (a b : Mask) → is_add b ≡ false → is_add (union a b) ≡ false
is_add-union a b h = go a.read a.write a.delete b.read b.write b.delete h
  where
    go :
        (r w d r' w' d' : Bool)
        → not (r' || w' || d') ≡ false
        → not ((r || r') || (w || w') || (d || d')) ≡ false
    go r w d r' w' d' h = ground arith

is_add-without : (a b : Mask) → is_add a ≡ true → is_add (without a b) ≡ true
is_add-without a b h = go a.read a.write a.delete b.read b.write b.delete h
  where
    go :
        (r w d r' w' d' : Bool)
        → not (r || w || d) ≡ true
        → not ((r && not r') || (w && not w') || (d && not d')) ≡ true
    go r w d r' w' d' h = ground arith

without-free : (a b : Mask) → is_add a ≡ true → without a b ≡ a
without-free a b h = go a.read a.write a.delete b.read b.write b.delete h
  where
    go :
        (r w d r' w' d' : Bool)
        → not (r || w || d) ≡ true
        → ◌≡◌ {A = Mask}
            (record { read = r && not r'; write = w && not w'; delete = d && not d' })
            (record { read = r; write = w; delete = d })
    go true w d r' w' d' h = cc
    go false true d r' w' d' h = cc
    go false false true r' w' d' h = cc
    go false false false r' w' d' h = refl

both_true : (a b : Bool) → (a && b) ≡ true → (a ≡ true) × (b ≡ true)
both_true a b h = (ground arith, ground arith)

above-raise :
    (max : ℤ) (fd j : ℕ)
    → above j (if above fd max then pos fd else max) ≡ true
    → ((fd == j) ≡ false) × (above j max ≡ true)
above-raise (pos m) fd j a = (ground arith, ground arith)
above-raise (negsuc m) fd j a = (ground arith, refl)

top-raise :
    (max : ℤ) (fd m : ℕ) → (if above fd max then pos fd else max) ≡ pos m → (fd ≡ m) ⊎ (max ≡ pos m)
top-raise max fd m e = elim (Bool-cases (above fd max)) [
  | inl up ↦ inl (pos-injective fd m (rw up at e))
  | inr low ↦ inr (rw low at e)
]

module _ {C D : Type 0} where
  -- The flags at a descriptor, none behind the end of the array.
  abbrev pub mask_at : List (Evt C D) → ℕ → Mask
  mask_at [] j = evt_add
  mask_at (e ∷ es) zero = e.mask
  mask_at (e ∷ es) (suc j) = mask_at es j

  -- Nothing is registered above `max`, and something is at `max`.
  pub record IsMax (max : ℤ) (idle : List (Evt C D)) : Type 0 where
    pub quiet : (j : ℕ) → above j max ≡ true → is_add (mask_at idle j) ≡ true
    pub top : (m : ℕ) → max ≡ pos m → is_add (mask_at idle m) ≡ false

  pub record IsValid (el : Eloop C D) : Type 0 where
    pub width : length el.idle ≡ el.count
    pub max : IsMax el.max el.idle

  pub mask_at-set :
      (es : List (Evt C D)) (i : ℕ) (e : Evt C D) (j : ℕ)
      → i < length es
      → mask_at (set es i e) j ≡ (if i == j then e.mask else mask_at es j)
  mask_at-set [] i e j h = absurd (omega arith)
  mask_at-set (f ∷ es) zero e zero h = refl
  mask_at-set (f ∷ es) zero e (suc j) h = ground arith
  mask_at-set (f ∷ es) (suc i) e zero h = ground arith
  mask_at-set (f ∷ es) (suc i) e (suc j) h = ground (arith, mask_at-set es i e j (omega arith))

  pub at-mask :
      (es : List (Evt C D)) (i : ℕ)
      → i < length es
      → (e : Evt C D) × (at es i ≡ ok e) × (e.mask ≡ mask_at es i)
  unfolding at
  at-mask [] i h = absurd (omega arith)
  at-mask (e ∷ es) zero h = (e, refl, refl)
  at-mask (e ∷ es) (suc i) h = at-mask es i (omega arith)

  bounded_top : (idle : List (Evt C D)) (m : ℕ) → is_add (mask_at idle m) ≡ false → m < length idle
  bounded_top [] m h = absurd (ground arith)
  bounded_top (e ∷ es) zero h = omega arith
  bounded_top (e ∷ es) (suc m) h = omega (arith, bounded_top es m h)

  quiet_next :
      (idle : List (Evt C D)) (i : ℕ)
      → is_add (mask_at idle i) ≡ true
      → ((j : ℕ) → suc i ≤ j → is_add (mask_at idle j) ≡ true)
      → (j : ℕ) → i ≤ j
      → is_add (mask_at idle j) ≡ true
  quiet_next idle i free rest j h = elim (Bool-cases (i == j)) [
    | inl e ↦ rw (sym (eq_of_== i j e)) free
    | inr ne ↦ rest j (ground arith)
  ]

  -- The downward loop finds the highest registered descriptor below `n`.
  scan-IsMax :
      (n : ℕ) (idle : List (Evt C D))
      → n ≤ length idle
      → ((j : ℕ) → n ≤ j → is_add (mask_at idle j) ≡ true)
      → Returns (scan n idle) (λ max. IsMax max idle)
  unfolding scan
  scan-IsMax zero idle h rest = (
    negsuc 0,
    refl,
    record { quiet = λ j a. rest j (omega arith); top = λ m e. absurd (negsuc≢pos 0 m e) },
  )
  scan-IsMax (suc i) idle h rest =
      let (e, read, same) = at-mask idle i (omega arith) in
      elim (Bool-cases (is_add e.mask)) [
        | inr busy ↦ (
          pos i,
          rw (read, ◌>>=◌, busy),
          record {
            quiet = λ j a. rest j (ground arith);
            top = λ m p. rw (sym (pos-injective i m p), sym same) busy;
          },
        )
        | inl free ↦
            let (max, run, p) =
              scan-IsMax i idle (omega arith) (quiet_next idle i (rw (sym same) free) rest) in
            (max, rw (read, ◌>>=◌, free) run, p)
      ]

  pub mask_at-replicate :
      (n : ℕ) (e : Evt C D) (j : ℕ) → e.mask ≡ evt_add → mask_at (replicate n e) j ≡ evt_add
  mask_at-replicate zero e j h = refl
  mask_at-replicate (suc n) e zero h = h
  mask_at-replicate (suc n) e (suc j) h = mask_at-replicate n e j h

  pub create-IsValid : (fresh : Evt C D) (n : ℕ) → IsValid (create fresh n)
  unfolding create
  create-IsValid fresh n = record {
    width = length-replicate n _;
    max = record {
      quiet = λ j a. rw (mask_at-replicate n (record fresh { mask = evt_add }) j refl);
      top = λ m e. absurd (negsuc≢pos 0 m e);
    };
  }

  -- The flags after `|= mask` at `fd`: nothing else moves.
  abbrev pub Added : List (Evt C D) → ℕ → Mask → List (Evt C D) → Type 0
  Added idle fd mask idle' =
      (j : ℕ) → mask_at idle' j ≡ (if fd == j then union (mask_at idle j) mask else mask_at idle j)

  pub add-IsMax :
      (max : ℤ) (idle idle' : List (Evt C D)) (fd : ℕ) (mask : Mask)
      → is_add mask ≡ false
      → Added idle fd mask idle'
      → IsMax max idle
      → IsMax (if above fd max then pos fd else max) idle'
  add-IsMax max idle idle' fd mask busy added v = record {
    quiet = λ j a. let (ne, b) = above-raise max fd j a in rw (added j, ne) (v.quiet j b);
    top = λ m e. elim (Bool-cases (fd == m)) [
      | inl same ↦ rw (added m, same) (is_add-union (mask_at idle m) mask busy)
      | inr ne ↦
          rw (added m, ne)
            (elim (top-raise max fd m e) [
              | inl same ↦ absurd (ground arith)
              | inr old ↦ v.top m old
            ])
    ];
  }

  -- The flags after `&= ~mask` at `fd`: nothing else moves.
  abbrev pub Deleted : List (Evt C D) → ℕ → Mask → List (Evt C D) → Type 0
  Deleted idle fd mask idle' =
      (j : ℕ)
      → mask_at idle' j ≡ (if fd == j then without (mask_at idle j) mask else mask_at idle j)

  -- Where no flags were, none are.
  Deleted-quiet :
      (idle idle' : List (Evt C D)) (fd : ℕ) (mask : Mask) (j : ℕ)
      → Deleted idle fd mask idle'
      → is_add (mask_at idle j) ≡ true
      → is_add (mask_at idle' j) ≡ true
  Deleted-quiet idle idle' fd mask j deleted h = elim (Bool-cases (fd == j)) [
    | inl same ↦ rw (deleted j, same) (is_add-without (mask_at idle j) mask h)
    | inr ne ↦ rw (deleted j, ne) h
  ]

  pub mask_beyond : (es : List (Evt C D)) (i : ℕ) → length es ≤ i → is_add (mask_at es i) ≡ true
  mask_beyond [] i h = refl
  mask_beyond (e ∷ es) zero h = absurd (omega arith)
  mask_beyond (e ∷ es) (suc i) h = mask_beyond es i (omega arith)

  -- Taking flags from where none are changes nothing.
  pub unmarked :
      (idle : List (Evt C D)) (fd : ℕ) (mask : Mask)
      → is_add (mask_at idle fd) ≡ true
      → Deleted idle fd mask idle
  unmarked idle fd mask h j = elim (Bool-cases (fd == j)) [
    | inl here ↦ rw (here, sym (eq_of_== fd j here)) (sym (without-free (mask_at idle fd) mask h))
    | inr ne ↦ rw ne
  ]

  kept-IsMax :
      (m : ℕ) (idle idle' : List (Evt C D)) (fd : ℕ) (mask : Mask)
      → Deleted idle fd mask idle'
      → ((fd == m) && is_add (mask_at idle' fd)) ≡ false
      → IsMax (pos m) idle
      → IsMax (pos m) idle'
  kept-IsMax m idle idle' fd mask deleted busy v = record {
    quiet = λ j a. Deleted-quiet idle idle' fd mask j deleted (v.quiet j a);
    top = λ i e. rw (sym (pos-injective m i e)) (elim (Bool-cases (fd == m)) [
      | inl same ↦ rw (sym (eq_of_== fd m same)) (rw same at busy)
      | inr ne ↦ rw (deleted m, ne) (v.top m refl)
    ]);
  }

  pub lower_max-IsMax :
      (max : ℤ) (idle idle' : List (Evt C D)) (fd : ℕ) (mask : Mask)
      → fd < length idle'
      → Deleted idle fd mask idle'
      → IsMax max idle
      → Returns (lower_max max fd (mask_at idle' fd) idle') (λ max'. IsMax max' idle')
  unfolding lower_max
  lower_max-IsMax (negsuc n) idle idle' fd mask h deleted v = (
    negsuc n,
    refl,
    record {
      quiet = λ j a. Deleted-quiet idle idle' fd mask j deleted (v.quiet j a);
      top = λ m e. absurd (negsuc≢pos n m e);
    },
  )
  lower_max-IsMax (pos m) idle idle' fd mask h deleted v =
      elim (Bool-cases ((fd == m) && is_add (mask_at idle' fd))) [
        | inr busy ↦ (pos m, rw busy, kept-IsMax m idle idle' fd mask deleted busy v)
        | inl gone ↦
            let (at_max, free) = both_true (fd == m) (is_add (mask_at idle' fd)) gone in
            let same = eq_of_== fd m at_max in
            let (max', run, w) = scan-IsMax m idle' (omega arith) (λ j g.
              elim (Bool-cases (m == j)) [
                | inl e ↦ rw (sym (eq_of_== m j e), sym same) free
                | inr ne ↦ Deleted-quiet idle idle' fd mask j deleted (v.quiet j (ground arith))
              ]) in
            (max', rw gone run, w)
      ]
