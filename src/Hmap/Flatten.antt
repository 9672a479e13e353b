-- ===== src/Hmap/Flatten.antt =====
-- All the entries of an array of buckets, one bucket after the other.
use mathlib.Core.Option.{or_else}
use dictionary.Base.{
  ℕ, zero, suc, ◌+◌, ◌<◌, ◌≡◌, ◌≢◌, refl, true, false, none, some, List, [], ◌∷◌, ◌++◌, flatten,
  arith, All, All-append, get_or, ◌==◌, Bool-cases, inl, inr,
}
use dictionary.Hmap.Bucket.{IsLawful, eqb_refl, lookup, IsPlaced, Distinct, key_of_match}
use dictionary.Hmap.Table.{home, view, IsTable}
use dictionary.Hmap.{HmapType, Entry, Bucket, find}

module _ {ℓ} {K V : Type ℓ} (type : HmapType K) where
  -- The stored hash is the key's.
  abbrev pub Owns : Bucket K V → Type 0
  Owns c = All (λ e. e.hash ≡ type.hash_fn e.key) c

  pub lookup-append :
      (q : K) (c d : Bucket K V)
      → lookup type q (c ++ d) ≡ or_else (lookup type q c) (lookup type q d)
  unfolding find or_else
  lookup-append q [] d = refl
  lookup-append q (e ∷ c) d = ground (arith, lookup-append q c d)

  Owns-of_placed : (mask i : ℕ) (c : Bucket K V) → IsPlaced type mask i c → Owns c
  Owns-of_placed mask i [] p = tt
  Owns-of_placed mask i (e ∷ c) p = (p.0.0, Owns-of_placed mask i c p.1)

  module _ (lawful : IsLawful type) where
    lookup_elsewhere :
        (mask i : ℕ) (q : K) (c : Bucket K V)
        → IsPlaced type mask i c
        → home type mask q ≢ i
        → lookup type q c ≡ none
    unfolding find
    lookup_elsewhere mask i q [] p far = refl
    lookup_elsewhere mask i q (e ∷ c) p far =
        let miss : type.keycmp q (type.hash_fn q) e.key e.hash ≡ false =
          ground (arith, key_of_match type lawful q e p.0.0) in
        rw miss (lookup_elsewhere mask i q c p.1 far)

    Distinct-append :
        (c d : Bucket K V)
        → Distinct type c
        → Distinct type d
        → ((q : K) (e : Entry K V) → lookup type q c ≡ some e → lookup type q d ≡ none)
        → Owns c
        → Distinct type (c ++ d)
    unfolding find or_else
    Distinct-append [] d p q apart own = q
    Distinct-append (e ∷ c) d p q apart own =
        let hit : type.keycmp e.key (type.hash_fn e.key) e.key e.hash ≡ true =
          rw own.0 (eqb_refl type lawful e.key) in
        let rest = Distinct-append c d p.1 q (λ k f h. apart_tail k f h) own.1 in
        (rw (lookup-append, p.0, apart e.key e (rw hit)), rest)
      where
        apart_tail : (k : K) (f : Entry K V) → lookup type k c ≡ some f → lookup type k d ≡ none
        apart_tail k f h = elim (Bool-cases (type.keycmp k (type.hash_fn k) e.key e.hash)) [
          | inl same ↦ apart k e (rw same)
          | inr other ↦ apart k f (rw other h)
        ]

    module _ (mask : ℕ) where
      abbrev PlacedFrom : ℕ → List (Bucket K V) → Type 0
      PlacedFrom j bs = (i : ℕ) → IsPlaced type mask (j + i) (get_or bs i [])

      PlacedFrom-tail :
          (j : ℕ) (c : Bucket K V) (bs : List (Bucket K V))
          → PlacedFrom j (c ∷ bs)
          → PlacedFrom (suc j) bs
      PlacedFrom-tail j c bs p i = let e : suc j + i ≡ j + suc i = omega arith in rw e (p (suc i))

      PlacedFrom-head :
          (j : ℕ) (c : Bucket K V) (bs : List (Bucket K V))
          → PlacedFrom j (c ∷ bs)
          → IsPlaced type mask j c
      PlacedFrom-head j c bs p = let e : j ≡ j + 0 = omega arith in rw e (p 0)

      lookup-flatten_before :
          (j : ℕ) (bs : List (Bucket K V)) (q : K)
          → PlacedFrom j bs
          → home type mask q < j
          → lookup type q (flatten bs) ≡ none
      unfolding find flatten or_else
      lookup-flatten_before j [] q p h = refl
      lookup-flatten_before j (c ∷ bs) q p h = rw (
        lookup-append,
        lookup_elsewhere mask j q c (PlacedFrom-head j c bs p) (omega arith),
        lookup-flatten_before (suc j) bs q (PlacedFrom-tail j c bs p) (omega arith),
      )

      lookup-flatten_at :
          (j i : ℕ) (bs : List (Bucket K V)) (q : K)
          → PlacedFrom j bs
          → home type mask q ≡ j + i
          → lookup type q (flatten bs) ≡ lookup type q (get_or bs i [])
      unfolding find flatten or_else
      lookup-flatten_at j i [] q p h = refl
      lookup-flatten_at j zero (c ∷ bs) q p h =
          rw
            (
              lookup-append,
              lookup-flatten_before (suc j) bs q (PlacedFrom-tail j c bs p) (omega arith),
            )
            (ground arith)
      lookup-flatten_at j (suc i) (c ∷ bs) q p h =
          rw (lookup-append, lookup_elsewhere mask j q c (PlacedFrom-head j c bs p) (omega arith))
            (lookup-flatten_at (suc j) i bs q (PlacedFrom-tail j c bs p) (omega arith))

      Owns-flatten_from : (j : ℕ) (bs : List (Bucket K V)) → PlacedFrom j bs → Owns (flatten bs)
      unfolding flatten
      Owns-flatten_from j [] p = tt
      Owns-flatten_from j (c ∷ bs) p =
          All-append _ c (flatten bs) (Owns-of_placed mask j c (PlacedFrom-head j c bs p))
            (Owns-flatten_from (suc j) bs (PlacedFrom-tail j c bs p))

      Distinct-flatten_from :
          (j : ℕ) (bs : List (Bucket K V))
          → PlacedFrom j bs
          → ((i : ℕ) → Distinct type (get_or bs i []))
          → Distinct type (flatten bs)
      unfolding flatten
      Distinct-flatten_from j [] p d = tt
      Distinct-flatten_from j (c ∷ bs) p d =
          Distinct-append c (flatten bs) (d 0)
            (Distinct-flatten_from (suc j) bs (PlacedFrom-tail j c bs p) (λ i. d (suc i))) apart
            (Owns-of_placed mask j c (PlacedFrom-head j c bs p))
        where
          apart :
              (q : K) (e : Entry K V) → lookup type q c ≡ some e → lookup type q (flatten bs) ≡ none
          apart q e h = elim (Bool-cases (home type mask q == j)) [
            | inl same ↦
                lookup-flatten_before (suc j) bs q (PlacedFrom-tail j c bs p) (ground arith)
            | inr other ↦
                cc (h, lookup_elsewhere mask j q c (PlacedFrom-head j c bs p) (ground arith))
          ]

      -- The entries of a table, in one list: each key at most once, and found as in the table.
      pub record IsListing (bs : List (Bucket K V)) : Type ℓ where
        pub owns : Owns (flatten bs)
        pub distinct : Distinct type (flatten bs)
        pub finds : (q : K) → lookup type q (flatten bs) ≡ view type mask bs q

      pub flatten-IsListing : (bs : List (Bucket K V)) → IsTable type mask bs → IsListing bs
      unfolding view
      flatten-IsListing bs t =
          let from : PlacedFrom 0 bs = λ i. let e : 0 + i ≡ i = omega arith in rw e (t.placed i) in
          record {
            owns = Owns-flatten_from 0 bs from;
            distinct = Distinct-flatten_from 0 bs from t.distinct;
            finds = λ q. lookup-flatten_at 0 (home type mask q) bs q from (omega arith);
          }
