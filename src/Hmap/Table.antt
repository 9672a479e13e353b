-- ===== src/Hmap/Table.antt =====
-- The array of buckets: where an entry hangs, what the array means, and a write to one bucket.
use dictionary.Base.Bits.{bit_and-le}
use dictionary.Base.{
  ℕ, ◌<◌, ◌≡◌, Option, none, some, List, [], ◌∷◌, bit_and, arith, length, get_or, set, replicate,
  if◌then◌else◌, ok, at, at-get_or, put, put-set, length-set, get_or-set_self, get_or-set_ne,
  get_or-set_all, length-replicate, get_or-replicate, Bool-cases, inl, inr, ◌==◌, eq_of_==, false,
  ◌≢◌, ap, sym,
}
use dictionary.Hmap.Bucket.{
  IsLawful, eqb, lookup, IsPlaced, Distinct, without, without-IsPlaced, without-Distinct,
  lookup-without,
}
use dictionary.Hmap.{HmapType, Entry, Bucket, find}

module _ {ℓ} {K : Type ℓ} (type : HmapType K) where
  -- The index that the code computes for a key.
  abbrev pub home : ℕ → K → ℕ
  home mask q = bit_and (type.hash_fn q) mask

module _ {ℓ} {K V : Type ℓ} (type : HmapType K) where
  abbrev pub bucket_of : ℕ → List (Bucket K V) → K → Bucket K V
  bucket_of mask bs q = get_or bs (home type mask q) []

  -- What the array holds for a key.
  unfoldable pub view : ℕ → List (Bucket K V) → K → Option (Entry K V)
  view mask bs q = lookup type q (bucket_of mask bs q)

  -- Every entry hangs on the bucket that its hash selects, and no key stands twice.
  pub record IsTable (mask : ℕ) (bs : List (Bucket K V)) : Type ℓ where
    pub fits : mask < length bs
    pub placed : (i : ℕ) → IsPlaced type mask i (get_or bs i [])
    pub distinct : (i : ℕ) → Distinct type (get_or bs i [])

  pub home-lt :
      {mask : ℕ} {bs : List (Bucket K V)} → IsTable mask bs → (q : K) → home type mask q < length bs
  home-lt {mask} t q = omega (arith, t.fits, bit_and-le (type.hash_fn q) mask)

  -- The reads and writes that the code makes at a key's index.
  pub at-home :
      {mask : ℕ} {bs : List (Bucket K V)}
      → IsTable mask bs
      → (q : K) (i : ℕ) → i ≡ home type mask q
      → at bs i ≡ ok (bucket_of mask bs q)
  at-home {mask} {bs} t q i e = rw e (at-get_or bs (home type mask q) [] (home-lt t q))

  pub put-home :
      {mask : ℕ} {bs : List (Bucket K V)}
      → IsTable mask bs
      → (q : K) (c : Bucket K V) (i : ℕ) → i ≡ home type mask q
      → put bs i c ≡ ok (set bs (home type mask q) c)
  put-home {mask} {bs} t q c i e = rw e (put-set bs (home type mask q) c (home-lt t q))

  -- A write of the bucket `c` for the key `k`, after which `k` has the entry `v`.
  pub record Replaces (mask : ℕ) (bs : List (Bucket K V)) (k : K) (v : Option (Entry K V))
      (c : Bucket K V) : Type ℓ where
    pub placed : IsPlaced type mask (home type mask k) c
    pub distinct : Distinct type c
    pub finds :
        (q : K)
        → lookup type q c ≡ (if eqb type q k then v else lookup type q (bucket_of mask bs k))

  module _ (lawful : IsLawful type) {mask : ℕ} {bs : List (Bucket K V)} (t : IsTable mask bs)
      (k : K) {v : Option (Entry K V)} {c : Bucket K V} (r : Replaces mask bs k v c) where
    pub set-IsTable : IsTable mask (set bs (home type mask k) c)
    set-IsTable = record {
      fits = rw length-set (t.fits);
      placed = get_or-set_all (IsPlaced type mask) bs (home type mask k) c [] r.placed t.placed;
      distinct =
          get_or-set_all (λ _. Distinct type) bs (home type mask k) c [] r.distinct t.distinct;
    }

    pub view-set :
        (q : K)
        → view mask (set bs (home type mask k) c) q ≡ (if eqb type q k then v else view mask bs q)
    unfolding view
    view-set q = elim (Bool-cases (home type mask q == home type mask k)) [
      | inl same ↦
          rw (eq_of_== _ _ same, get_or-set_self bs (home type mask k) c [] (home-lt t k))
            (r.finds q)
      | inr other ↦ rw (eqb_of_home other, get_or-set_ne bs _ _ c [] (ne_of_home other))
    ]
      where
        ne_of_home :
            (home type mask q == home type mask k) ≡ false → home type mask k ≢ home type mask q
        ne_of_home h = ground arith

        eqb_of_home : (home type mask q == home type mask k) ≡ false → eqb type q k ≡ false
        eqb_of_home h = elim (Bool-cases (eqb type q k)) [
          | inl same ↦
              absurd (ne_of_home h (ap (home type mask) (sym ((lawful.keycmp_iff q k).0 same))))
          | inr other ↦ other
        ]

  module _ (lawful : IsLawful type) {mask : ℕ} {bs : List (Bucket K V)} (t : IsTable mask bs) where
    -- A new entry at the head of its bucket.
    pub cons-Replaces :
        (e : Entry K V)
        → e.hash ≡ type.hash_fn e.key
        → view mask bs e.key ≡ none
        → Replaces mask bs e.key (some e) (e ∷ bucket_of mask bs e.key)
    unfolding view find
    cons-Replaces e own absent = record {
      placed = ((own, rw own), t.placed (home type mask e.key));
      distinct = (absent, t.distinct (home type mask e.key));
      finds = λ q. rw own;
    }

    -- The key's entry taken out of its bucket.
    pub without-Replaces : (k : K) → Replaces mask bs k none (without type k (bucket_of mask bs k))
    without-Replaces k =
        let p = t.placed (home type mask k) in
        let d = t.distinct (home type mask k) in
        record {
          placed = without-IsPlaced type mask (home type mask k) k _ p;
          distinct = without-Distinct type lawful mask (home type mask k) k _ p d;
          finds = λ q. lookup-without type lawful mask (home type mask k) k q _ p d;
        }

  -- An array of empty buckets.
  pub replicate-IsTable : (mask n : ℕ) → mask < n → IsTable mask (replicate n [])
  replicate-IsTable mask n h = record {
    fits = rw length-replicate h;
    placed = λ i. rw get_or-replicate tt;
    distinct = λ i. rw get_or-replicate tt;
  }

  pub view-replicate : (mask n : ℕ) (q : K) → view mask (replicate n []) q ≡ none
  unfolding view find
  view-replicate mask n q = rw get_or-replicate
