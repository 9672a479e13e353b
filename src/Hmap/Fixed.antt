-- ===== src/Hmap/Fixed.antt =====
-- hmapCreateFixed with roundup32bit, and the width of the array that it allocates.
use dictionary.Base.{
  ℕ, ◌+◌, ◌-◌, ◌/◌, ◌%◌, ◌^◌, ◌≤◌, ◌≡◌, refl, bit_and, true, false, Option, some, fault, ◌>>=◌,
  at-fault, [], length, length-replicate, arith,
}
use dictionary.Hmap.{
  HmapType, Bucket, Hmap, Memory, u32, min_capacity, new, create_with, should_rebuild, rebuild,
  get_index, get_entry, get, contains, add, delete,
}
use Prim.Native.Nat.{bit_or}

-- `num |= num >> s`
abbrev or_shift : ℕ → ℕ → ℕ
or_shift num s = bit_or num (num / 2 ^ s)

-- `roundup32bit`
unfoldable pub round_up_32_bit : ℕ → ℕ
round_up_32_bit num =
    (or_shift (or_shift (or_shift (or_shift (or_shift ((num + u32 - 1) % u32) 1) 2) 4) 8) 16 + 1)
    % u32

module _ {ℓ} {K V : Type ℓ} where
  -- `hmapCreateFixed`
  unfoldable pub create_fixed : Memory → ℕ → Option (Hmap K V)
  unfolding round_up_32_bit
  create_fixed mem capacity = create_with mem true (round_up_32_bit capacity)

-- A fixed table whose array does not reach to the place of `key`.
module _ {ℓ} {K V : Type ℓ} (type : HmapType K) (hm : Hmap K V) (key : K)
    (short : length hm.entries ≤ bit_and (type.hash_fn key) hm.mask) where
  get-outside : get type hm key ≡ fault
  unfolding get get_entry
  get-outside = simp (at-fault hm.entries _ short, ◌>>=◌)

  delete-outside : delete type hm key ≡ fault
  unfolding delete
  delete-outside = simp (at-fault hm.entries _ short, ◌>>=◌)

  get_index-outside :
      (mem : Memory) → hm.fixed_size ≡ true → get_index type mem hm key (type.hash_fn key) ≡ fault
  unfolding get_index rebuild should_rebuild
  get_index-outside mem fixed =
      let kept : should_rebuild hm ≡ false = ground (arith, fixed) in
      simp (kept, at-fault hm.entries _ short, ◌>>=◌)

  contains-outside : (mem : Memory) → hm.fixed_size ≡ true → contains type mem hm key ≡ fault
  unfolding contains
  contains-outside mem fixed = simp (get_index-outside mem fixed, ◌>>=◌)

  add-outside :
      (mem : Memory) (value : V) → hm.fixed_size ≡ true → add type mem hm key value ≡ fault
  unfolding add
  add-outside mem value fixed = simp (get_index-outside mem fixed, ◌>>=◌)

module _ {ℓ} {K : Type ℓ} (V : Type ℓ) (type : HmapType K) where
  -- Where memory is found, `hmapCreateFixed` makes an empty table on which a key whose place is
  -- HM_MIN_CAPACITY or more makes hmapGet, hmapContains, hmapAdd and hmapDelete read outside the array.
  pub create_fixed-outside :
      (mem : Memory) (capacity : ℕ) (key : K) (value : V)
      → mem.struct ≡ true
      → mem.table ≡ true
      → min_capacity ≤ bit_and (type.hash_fn key) ((round_up_32_bit capacity + u32 - 1) % u32)
      → (hm : Hmap K V) × (create_fixed mem capacity ≡ some hm)
        × (get type hm key ≡ fault)
        × (contains type mem hm key ≡ fault)
        × (add type mem hm key value ≡ fault)
        × (delete type hm key ≡ fault)
  unfolding create_fixed create_with new
  create_fixed-outside mem capacity key value struct table far =
      let hm : Hmap K V = new true (round_up_32_bit capacity) in
      let short : length hm.entries ≤ bit_and (type.hash_fn key) hm.mask =
        rw (length-replicate {A = Bucket K V} min_capacity []) far in
      (
        hm,
        rw (struct, table),
        get-outside type hm key short,
        contains-outside type hm key short mem refl,
        add-outside type hm key short mem value refl,
        delete-outside type hm key short,
      )
