-- ===== src/Hmap/Entries.antt =====
-- What a table stands for, in terms of the entries that hang in its buckets.
use dictionary.Base.{
  ℕ, zero, suc, ◌≡◌, refl, sym, ap, ◌∙◌, ◌↔◌, true, Option, none, some, [], ◌∷◌, get_or, ok, at,
  Bool-cases, inl, inr, arith,
}
use mathlib.Core.Option.{some-injective}
use dictionary.Hmap.Bucket.{
  IsLawful, IsPlaced, Distinct, lookup, key-lookup, eqb_refl, key_of_match,
}
use dictionary.Hmap.Refines.{Models, contents, value?}
use dictionary.Hmap.Table.{view, home, bucket_of}
use dictionary.Hmap.{HmapType, Entry, Bucket, Hmap, find}

ok-injective {ℓ} : {A : Type ℓ} (a b : A) → ok a ≡ ok b → a ≡ b
ok-injective a b h = cc

module _ {ℓ} {K V : Type ℓ} (type : HmapType K) where
  -- What the walk finds has a place in the bucket.
  place-lookup :
      (q : K) (c : Bucket K V) (e : Entry K V)
      → lookup type q c ≡ some e
      → (j : ℕ) × (at c j ≡ ok e)
  unfolding find at
  place-lookup q [] e h = absurd (ground arith)
  place-lookup q (f ∷ c) e h = elim (Bool-cases (type.keycmp q (type.hash_fn q) f.key f.hash)) [
    | inl hit ↦ (0, ground (arith, hit))
    | inr miss ↦ let (j, p) = place-lookup q c e (ground (arith, miss)) in (suc j, p)
  ]

  module _ (lawful : IsLawful type) (mask i : ℕ) where
    -- An entry that has a place is what the walk finds for its key.
    lookup-place :
        (c : Bucket K V) (j : ℕ) (e : Entry K V)
        → IsPlaced type mask i c
        → Distinct type c
        → at c j ≡ ok e
        → lookup type e.key c ≡ some e
    unfolding find at
    lookup-place [] j e p d h = absurd (ground arith)
    lookup-place (f ∷ c) zero e p d h =
        let hit : type.keycmp f.key (type.hash_fn f.key) f.key f.hash ≡ true =
          rw (p.0.0) (eqb_refl type lawful f.key) in
        rw (sym (ok-injective f e h)) (rw hit)
    lookup-place (f ∷ c) (suc j) e p d h =
        let rest = lookup-place c j e p.1 d.1 h in
        elim (Bool-cases (type.keycmp e.key (type.hash_fn e.key) f.key f.hash)) [
          | inl hit ↦
              let same = key_of_match type lawful e.key f p.0.0 hit in
              absurd (ground (arith, rw same at rest, d.0))
          | inr miss ↦ rw miss rest
        ]

    placed-at :
        (c : Bucket K V) (j : ℕ) (e : Entry K V)
        → IsPlaced type mask i c
        → at c j ≡ ok e
        → home type mask e.key ≡ i
    unfolding at
    placed-at [] j e p h = absurd (ground arith)
    placed-at (f ∷ c) zero e p h = rw (sym (ok-injective f e h)) (rw (sym p.0.0) (p.0.1))
    placed-at (f ∷ c) (suc j) e p h = placed-at c j e p.1 h

  some_value :
      (o : Option (Entry K V)) (v : V)
      → value? o ≡ some v
      → (e : Entry K V) × (o ≡ some e) × (e.value ≡ v)
  some_value none v h = cc
  some_value (some e) v h = (e, refl, some-injective _ _ h)

  -- On a table for `f`, `f` has the value `v` for `k` exactly if some place of some bucket holds an
  -- entry with that key and value.
  pub Models-entry :
      {f : K → Option V} {hm : Hmap K V}
      → IsLawful type
      → Models type f hm
      → (k : K) (v : V)
      → (f k ≡ some v) ↔ (
          (i : ℕ) × (j : ℕ) × (e : Entry K V) × (at (get_or hm.entries i []) j ≡ ok e)
          × (e.key ≡ k)
          × (e.value ≡ v))
  unfolding contents view
  Models-entry {f} {hm} lawful models k v = (there, back)
    where
      there :
          f k ≡ some v
          → (i : ℕ) × (j : ℕ) × (e : Entry K V) × (at (get_or hm.entries i []) j ≡ ok e)
            × (e.key ≡ k)
            × (e.value ≡ v)
      there h =
          let c = bucket_of type hm.mask hm.entries k in
          let i = home type hm.mask k in
          let (e, found, value) = some_value (lookup type k c) v (models.reads k ∙ h) in
          let (j, place) = place-lookup k c e found in
          let key = key-lookup type lawful hm.mask i k c e (models.valid.table.placed i) found in
          (i, j, e, place, sym key, value)

      back :
          ((i : ℕ) × (j : ℕ) × (e : Entry K V) × (at (get_or hm.entries i []) j ≡ ok e)
            × (e.key ≡ k)
            × (e.value ≡ v))
          → f k ≡ some v
      back (i, j, e, place, key, value) =
          let c = get_or hm.entries i [] in
          let p = models.valid.table.placed i in
          let found = lookup-place lawful hm.mask i c j e p (models.valid.table.distinct i) place in
          let at_home = placed-at lawful hm.mask i c j e p place in
          sym (models.reads k) ∙ rw (sym key, at_home) (ap value? found ∙ ap some value)
