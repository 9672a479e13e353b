-- ===== src/Hmap/Iterate.antt =====
-- `hmapIterator` and `hmapRelease` of hmap.c: the walks over all the buckets.
use dictionary.Base.{
  at-drop, drop_next, length-append, ℕ, zero, suc, ◌+◌, ◌-◌, ◌≤◌, ◌<◌, ◌≡◌, refl, ◌∙◌, sym, Bool,
  true, false, List, [], ◌∷◌, ◌++◌, flatten, arith, Run, ok, fault, ◌>>=◌, at, length, take, drop,
  Option, none, some, if◌then◌else◌,
}
use dictionary.Hmap.{Entry, Bucket, Hmap}

-- The iterator; `cur` is the entry that it points at with those that hang behind it, or is empty.
pub record Iterator {ℓ} (K V : Type ℓ) : Type ℓ where
  pub idx : ℕ
  pub hm : Hmap K V
  pub cur : Bucket K V

module _ {ℓ} {K V : Type ℓ} where
  -- `hmapIteratorCreate`
  unfoldable pub iterator_create : Bool → Hmap K V → Option (Iterator K V)
  iterator_create has_memory hm =
      if has_memory then some (record { idx = 0; hm = hm; cur = [] }) else none

  -- The loop of `hmapIteratorGetNext`, for the rounds that `idx < capacity` leaves. It goes on to
  -- the next bucket when nothing hangs behind `cur`.
  next_bucket : ℕ → Iterator K V → Run (Bool × Iterator K V)
  next_bucket zero it = ok (false, it)
  next_bucket (suc rounds) it = at it.hm.entries it.idx >>= λ he. elim he [
    | [] ↦ next_bucket rounds (record it { idx = it.idx + 1 })
    | e ∷ es ↦ ok (true, record it { idx = it.idx + 1; cur = e ∷ es })
  ]

  next_loop : ℕ → Iterator K V → Bucket K V → Run (Bool × Iterator K V)
  unfolding next_bucket
  next_loop zero it cur = ok (false, it)
  next_loop (suc rounds) it [] = next_bucket (suc rounds) it
  next_loop (suc rounds) it (e ∷ []) = next_bucket (suc rounds) it
  next_loop (suc rounds) it (e ∷ f ∷ r) = ok (true, record it { cur = f ∷ r })

  -- `hmapIteratorGetNext`: HM_OK or HM_ERR, and the iterator.
  unfoldable pub get_next : Iterator K V → Run (Bool × Iterator K V)
  unfolding next_loop
  get_next it = next_loop (it.hm.capacity - it.idx) it it.cur

  -- A client calls `hmapIteratorGetNext` until it says HM_ERR, and sees these entries at `cur`.
  pub data Visits : Iterator K V → List (Entry K V) → Type ℓ where
    stop : {it it' : Iterator K V} → get_next it ≡ ok (false, it') → Visits it []
    visit :
        {it it' : Iterator K V} {e : Entry K V} {r : Bucket K V} {es : List (Entry K V)}
        → get_next it ≡ ok (true, it')
        → it'.cur ≡ e ∷ r
        → Visits it' es
        → Visits it (e ∷ es)

  -- All the entries in order, but of the last bucket only the first.
  abbrev pub reached : List (Bucket K V) → List (Entry K V)
  reached [] = []
  reached (c ∷ []) = take 1 c
  reached (c ∷ d ∷ bs) = c ++ reached (d ∷ bs)

  next_lem :
      (it : Iterator K V) (n : ℕ)
      → it.hm.capacity ≡ it.idx + n
      → get_next it ≡ next_loop n it it.cur
  unfolding get_next
  next_lem it n e = let m : it.hm.capacity - it.idx ≡ n = omega arith in rw m

  Visits-same :
      {it it' : Iterator K V} {es : List (Entry K V)}
      → get_next it ≡ get_next it'
      → Visits it' es
      → Visits it es
  Visits-same e (stop p) = stop (e ∙ p)
  Visits-same e (visit p q v) = visit (e ∙ p) q v

  abbrev pointing : Hmap K V → ℕ → Bucket K V → Iterator K V
  pointing hm i cur = record { idx = i; hm = hm; cur = cur }

  -- What is left to visit: what hangs behind `cur`, unless the last bucket has been entered.
  abbrev left : Bucket K V → List (Bucket K V) → List (Entry K V)
  left cur [] = []
  left [] (c ∷ bs) = reached (c ∷ bs)
  left (e ∷ r) (c ∷ bs) = r ++ reached (c ∷ bs)

  left_nil : (bs : List (Bucket K V)) → left [] bs ≡ reached bs
  left_nil [] = refl
  left_nil (c ∷ bs) = refl

  left_one : (g : Entry K V) (bs : List (Bucket K V)) → left (g ∷ []) bs ≡ reached bs
  left_one g [] = refl
  left_one g (c ∷ bs) = refl

  module _ (hm : Hmap K V) (i : ℕ) where
    -- Nothing hangs behind `cur`, and the buckets `c ∷ bs` are left.
    enter_bucket :
        (c : Bucket K V) (bs : List (Bucket K V)) (cur : Bucket K V)
        → ((n : ℕ) (it : Iterator K V) → next_loop (suc n) it cur ≡ next_bucket (suc n) it)
        → drop i hm.entries ≡ c ∷ bs
        → hm.capacity ≡ i + suc (length bs)
        → ((cur' : Bucket K V) → Visits (pointing hm (i + 1) cur') (left cur' bs))
        → left cur bs ≡ reached bs
        → Visits (pointing hm i cur) (reached (c ∷ bs))
    unfolding next_bucket
    enter_bucket [] [] cur ends d e ih l =
        stop {it' = pointing hm (i + 1) cur}
          (next_lem (pointing hm i cur) 1 e ∙ ends 0 _ ∙ rw (at-drop hm.entries i [] [] d))
    enter_bucket [] (b ∷ bs) cur ends d e ih l =
        let this = next_lem (pointing hm i cur) (suc (suc (length bs))) e ∙ ends _ _ in
        let next = next_lem (pointing hm (i + 1) cur) (suc (length bs)) (omega arith) ∙ ends _ _ in
        Visits-same (this ∙ rw (at-drop hm.entries i [] (b ∷ bs) d) (sym next)) (rw l at (ih cur))
    enter_bucket (f ∷ r) [] cur ends d e ih l =
        visit {it' = pointing hm (i + 1) (f ∷ r)}
          (next_lem (pointing hm i cur) 1 e ∙ ends 0 _ ∙ rw (at-drop hm.entries i (f ∷ r) [] d))
          refl (ih (f ∷ r))
    enter_bucket (f ∷ r) (b ∷ bs) cur ends d e ih l =
        visit {it' = pointing hm (i + 1) (f ∷ r)}
          (next_lem (pointing hm i cur) (suc (suc (length bs))) e
            ∙ ends _ _
            ∙ rw (at-drop hm.entries i (f ∷ r) (b ∷ bs) d))
          refl (ih (f ∷ r))

  Visits-from :
      (hm : Hmap K V) (i : ℕ) (bs : List (Bucket K V)) (cur : Bucket K V)
      → drop i hm.entries ≡ bs
      → hm.capacity ≡ i + length bs
      → Visits (pointing hm i cur) (left cur bs)
  unfolding next_loop
  Visits-from hm i [] cur d e = stop (next_lem (pointing hm i cur) 0 e)
  Visits-from hm i (c ∷ bs) [] d e =
      enter_bucket hm i c bs [] (λ n it. refl) d e
        (λ cur. Visits-from hm (i + 1) bs cur (drop_next hm.entries i c bs d) (omega arith))
        (left_nil bs)
  Visits-from hm i (c ∷ bs) (g ∷ []) d e =
      enter_bucket hm i c bs (g ∷ []) (λ n it. refl) d e
        (λ cur. Visits-from hm (i + 1) bs cur (drop_next hm.entries i c bs d) (omega arith))
        (left_one g bs)
  Visits-from hm i (c ∷ bs) (g ∷ f ∷ r) d e =
      visit (next_lem (pointing hm i (g ∷ f ∷ r)) (suc (length bs)) e) refl
        (Visits-from hm i (c ∷ bs) (f ∷ r) d e)

  -- On a table as wide as it says, the calls do not fault and come to an end, and they visit all
  -- the entries in the order of the buckets, but of the last bucket only the first.
  pub iterate-reached :
      (hm : Hmap K V)
      → hm.capacity ≡ length hm.entries
      → (it : Iterator K V) × (iterator_create true hm ≡ some it) × Visits it (reached hm.entries)
  unfolding iterator_create
  iterate-reached hm w =
      let v = Visits-from hm 0 hm.entries [] refl (omega arith) in
      (pointing hm 0 [], refl, rw left_nil at v)

  abbrev pub last_bucket : List (Bucket K V) → Bucket K V
  last_bucket [] = []
  last_bucket (c ∷ []) = c
  last_bucket (c ∷ d ∷ bs) = last_bucket (d ∷ bs)

  -- So many are missed: the entries of the last bucket but one.
  pub length-reached :
      (bs : List (Bucket K V))
      → length (reached bs) + (length (last_bucket bs) - 1) ≡ length (flatten bs)
  unfolding flatten
  length-reached [] = omega arith
  length-reached ([] ∷ []) = omega arith
  length-reached ((e ∷ c) ∷ []) = omega (arith, length-append c [])
  length-reached (c ∷ d ∷ bs) = omega (
    arith,
    length-append c (reached (d ∷ bs)),
    length-append c (flatten (d ∷ bs)),
    length-reached (d ∷ bs),
  )

  -- `hmapRelease`: the entries that it frees, in order. Its loop counts to `size`, and frees the
  -- chain behind a bucket's head before the head.
  release_loop : ℕ → List (Bucket K V) → Run (List (Entry K V))
  release_loop zero bs = ok []
  release_loop (suc rounds) [] = fault
  release_loop (suc rounds) ([] ∷ bs) = release_loop rounds bs
  release_loop (suc rounds) ((e ∷ es) ∷ bs) =
      release_loop rounds bs >>= λ freed. ok (es ++ e ∷ freed)

  unfoldable pub release : Hmap K V → Run (List (Entry K V))
  unfolding release_loop
  release hm = release_loop hm.size hm.entries

  -- The entries of some buckets, each bucket's head last.
  abbrev pub heads_last : List (Bucket K V) → List (Entry K V)
  heads_last [] = []
  heads_last ([] ∷ bs) = heads_last bs
  heads_last ((e ∷ es) ∷ bs) = es ++ e ∷ heads_last bs

  release_loop-take :
      (n : ℕ) (bs : List (Bucket K V))
      → n ≤ length bs
      → release_loop n bs ≡ ok (heads_last (take n bs))
  unfolding release_loop
  release_loop-take zero bs h = refl
  release_loop-take (suc n) [] h = absurd (omega arith)
  release_loop-take (suc n) ([] ∷ bs) h = release_loop-take n bs (omega arith)
  release_loop-take (suc n) ((e ∷ es) ∷ bs) h = rw (release_loop-take n bs (omega arith))

  release_loop-fault : (n : ℕ) (bs : List (Bucket K V)) → length bs < n → release_loop n bs ≡ fault
  unfolding release_loop
  release_loop-fault zero bs h = absurd (omega arith)
  release_loop-fault (suc n) [] h = refl
  release_loop-fault (suc n) ([] ∷ bs) h = release_loop-fault n bs (omega arith)
  release_loop-fault (suc n) ((e ∷ es) ∷ bs) h = rw (release_loop-fault n bs (omega arith))

  -- `hmapRelease` frees the entries of the first `size` buckets, each once, and no others; it
  -- reads past the array when there are more entries than buckets.
  pub release-take :
      (hm : Hmap K V)
      → (hm.size ≤ length hm.entries → release hm ≡ ok (heads_last (take hm.size hm.entries)))
        × (length hm.entries < hm.size → release hm ≡ fault)
  unfolding release
  release-take hm = (release_loop-take hm.size hm.entries, release_loop-fault hm.size hm.entries)
