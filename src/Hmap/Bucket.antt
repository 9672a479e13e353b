-- ===== src/Hmap/Bucket.antt =====
-- One bucket: what the walks of `_hmapGetIndex`, `hmapGetEntry` and `hmapDelete` find in it.
use dictionary.Base.{
  ℕ, suc, ◌≡◌, refl, ◌↔◌, Bool, true, Option, none, some, [], ◌∷◌, bit_and, arith, All, length,
  if◌then◌else◌, Bool-cases, inl, inr,
}
use dictionary.Hmap.{HmapType, Entry, Bucket, find, unlink}

-- What the table relies on in its callbacks: on two keys with their own hashes, `keycmp` decides
-- equality.
pub record IsLawful {ℓ} {K : Type ℓ} (type : HmapType K) : Type ℓ where
  pub keycmp_iff : (a b : K) → (type.keycmp a (type.hash_fn a) b (type.hash_fn b) ≡ true) ↔ (a ≡ b)

module _ {ℓ} {K : Type ℓ} (type : HmapType K) where
  abbrev pub eqb : K → K → Bool
  eqb a b = type.keycmp a (type.hash_fn a) b (type.hash_fn b)

  pub eqb_refl : IsLawful type → (q : K) → eqb q q ≡ true
  eqb_refl lawful q = (lawful.keycmp_iff q q).1 refl

module _ {ℓ} {K V : Type ℓ} (type : HmapType K) where
  abbrev pub lookup : K → Bucket K V → Option (Entry K V)
  lookup q c = find type q (type.hash_fn q) c

  -- The stored hash is the key's, and sends the entry to bucket `i`.
  abbrev pub IsPlaced : ℕ → ℕ → Bucket K V → Type 0
  IsPlaced mask i c = All (λ e. (e.hash ≡ type.hash_fn e.key) × (bit_and e.hash mask ≡ i)) c

  -- No key stands twice.
  abbrev pub Distinct : Bucket K V → Type ℓ
  Distinct [] = Unit
  Distinct (e ∷ c) = (lookup e.key c ≡ none) × Distinct c

  -- The bucket less its first entry for the key.
  unfoldable pub without : K → Bucket K V → Bucket K V
  without k [] = []
  without k (e ∷ c) = if type.keycmp k (type.hash_fn k) e.key e.hash then c else e ∷ without k c

  pub unlink-none :
      (k : K) (c : Bucket K V) → lookup k c ≡ none → unlink type k (type.hash_fn k) c ≡ none
  unfolding find unlink
  unlink-none k [] h = refl
  unlink-none k (e ∷ c) h = ground (arith, unlink-none k c)

  pub unlink-some :
      (k : K) (c : Bucket K V) (e : Entry K V)
      → lookup k c ≡ some e
      → unlink type k (type.hash_fn k) c ≡ some (e, without k c)
  unfolding find unlink without
  unlink-some k [] e h = ground arith
  unlink-some k (f ∷ c) e h = ground (arith, unlink-some k c e)

  pub length-without :
      (k : K) (c : Bucket K V) (e : Entry K V)
      → lookup k c ≡ some e
      → suc (length (without k c)) ≡ length c
  unfolding find without
  length-without k [] e h = ground arith
  length-without k (f ∷ c) e h = ground (arith, length-without k c e)

  pub without-IsPlaced :
      (mask i : ℕ) (k : K) (c : Bucket K V) → IsPlaced mask i c → IsPlaced mask i (without k c)
  unfolding without
  without-IsPlaced mask i k [] p = p
  without-IsPlaced mask i k (f ∷ c) p =
      let rest = without-IsPlaced mask i k c p.1 in
      elim (Bool-cases (type.keycmp k (type.hash_fn k) f.key f.hash)) [
        | inl hit ↦ rw hit (p.1)
        | inr miss ↦ rw miss (p.0, rest)
      ]

  module _ (lawful : IsLawful type) where
    pub key_of_match :
        (q : K) (e : Entry K V)
        → e.hash ≡ type.hash_fn e.key
        → type.keycmp q (type.hash_fn q) e.key e.hash ≡ true
        → q ≡ e.key
    key_of_match q e own h = (lawful.keycmp_iff q e.key).0 (rw own at h)

    -- The walk finds an entry with the key that it is given.
    pub key-lookup :
        (mask i : ℕ) (q : K) (c : Bucket K V) (e : Entry K V)
        → IsPlaced mask i c
        → lookup q c ≡ some e
        → q ≡ e.key
    unfolding find
    key-lookup mask i q [] e p h = ground arith
    key-lookup mask i q (f ∷ c) e p h =
        ground (arith, key-lookup mask i q c e p.1, key_of_match q f p.0.0)

    pub lookup-without :
        (mask i : ℕ) (k q : K) (c : Bucket K V)
        → IsPlaced mask i c
        → Distinct c
        → lookup q (without k c) ≡ (if eqb type q k then none else lookup q c)
    unfolding find without
    lookup-without mask i k q [] p d = ground arith
    lookup-without mask i k q (f ∷ c) p d = ground (
      arith,
      lookup-without mask i k q c p.1 d.1,
      lawful.keycmp_iff q k,
      lawful.keycmp_iff k f.key,
      lawful.keycmp_iff q f.key,
    )

    pub without-Distinct :
        (mask i : ℕ) (k : K) (c : Bucket K V)
        → IsPlaced mask i c
        → Distinct c
        → Distinct (without k c)
    unfolding without
    without-Distinct mask i k [] p d = d
    without-Distinct mask i k (f ∷ c) p d =
        let rest = without-Distinct mask i k c p.1 d.1 in
        let gone : lookup f.key (without k c) ≡ none =
          ground (arith, lookup-without mask i k f.key c p.1 d.1) in
        elim (Bool-cases (type.keycmp k (type.hash_fn k) f.key f.hash)) [
          | inl hit ↦ rw hit (d.1)
          | inr miss ↦ rw miss (gone, rest)
        ]
