-- ===== src/Hmap/Refines.antt =====
-- The table of hmap.c as a map: each operation refines one on functions from keys to values.
use dictionary.Base.{
  ℕ, ◌+◌, ◌-◌, ◌*◌, ◌%◌, ◌<◌, ◌≡◌, refl, ◌∙◌, sym, ap, true, false, Option, none, some, [], flatten,
  arith, Returns, Run, ok, length, Bool-cases, inl, inr, if◌then◌else◌, length-replicate,
  flatten-replicate,
}
use dictionary.Hmap.Bucket.{IsLawful, eqb}
use dictionary.Hmap.Expand.{move_all-Moved}
use dictionary.Hmap.Table.{view, IsTable, at-home, replicate-IsTable, view-replicate}
use dictionary.Hmap.{
  HmapType, Entry, Bucket, Hmap, Memory, hm_err, hm_ok, new, create, expand, should_rebuild,
  rebuild, get, u32, min_capacity, load_threshold,
}

expand_lacking {ℓ} :
    {K V : Type ℓ} (mem : Memory) (hm : Hmap K V)
    → mem.table ≡ false
    → expand mem hm ≡ ok (hm_err, hm)
unfolding expand
expand_lacking mem hm lacks = rw lacks

abbrev pub value? {ℓ} : {K V : Type ℓ} → Option (Entry K V) → Option V
value? none = none
value? (some e) = some e.value

ok-value? {ℓ} :
    {K V : Type ℓ} (o : Option (Entry K V))
    → elim o as (λ _. Run (Option V)) [ none ↦ ok none | some e ↦ ok (some e.value) ]
      ≡ ok (value? o)
ok-value? none = refl
ok-value? (some e) = refl

module _ {ℓ} {K V : Type ℓ} (type : HmapType K) where
  -- What the table means: the value under each key.
  unfoldable pub contents : Hmap K V → K → Option V
  contents hm q = value? (view type hm.mask hm.entries q)

  -- The fields agree with one another and with the buckets.
  pub record IsValid (hm : Hmap K V) : Type ℓ where
    pub mask : hm.mask + 1 ≡ hm.capacity
    pub width : length hm.entries ≡ hm.capacity
    pub counted : hm.size ≡ length (flatten hm.entries)
    pub small : hm.size < u32
    pub table : IsTable type hm.mask hm.entries

  -- The table is well formed and stands for the map `f`.
  pub record Models (f : K → Option V) (hm : Hmap K V) : Type ℓ where
    pub valid : IsValid hm
    pub reads : (q : K) → contents hm q ≡ f q

  abbrev pub update : (K → Option V) → K → Option V → K → Option V
  update f k v q = if eqb type q k then v else f q

  new-Models : Models (λ _. none) (new {V = V} false min_capacity)
  unfolding new contents
  new-Models = record {
    valid = record {
      mask = refl;
      width = length-replicate {A = Bucket K V} min_capacity [];
      counted = sym (ap length (flatten-replicate (Entry K V) min_capacity));
      small = omega arith;
      table = replicate-IsTable type _ min_capacity (omega arith);
    };
    reads = λ q. ap value? (view-replicate type _ min_capacity q);
  }

  -- A new table is well formed and holds nothing.
  pub create-Models :
      (mem : Memory)
      → mem.struct ≡ true
      → mem.table ≡ true
      → (hm : Hmap K V) × (create mem ≡ some hm) × Models (λ _. none) hm
  unfolding create
  create-Models mem has_struct has_table =
      (new false min_capacity, rw (has_struct, has_table), new-Models)

  -- `hmapGet` reads the map, and does not fault.
  pub get-Models :
      {f : K → Option V} {hm : Hmap K V} → Models f hm → (k : K) → get type hm k ≡ ok (f k)
  unfolding get contents view
  get-Models {hm} models k =
      rw (at-home type models.valid.table k _ refl, ← models.reads k)
        (ok-value? (view type hm.mask hm.entries k))

  module _ (lawful : IsLawful type) (mem : Memory) {f : K → Option V} (hm : Hmap K V)
      (models : Models f hm) where
    -- The expanded table
    pub expand-Models :
        mem.table ≡ true
        → hm.capacity * 2 < u32
        → Returns (expand mem hm) λ (status, hm').
          (status ≡ hm_ok) × Models f hm' × (hm'.capacity ≡ hm.capacity * 2) × (hm'.size ≡ hm.size)
    unfolding expand contents
    expand-Models has room =
        let v = models.valid in
        let cap : ℕ = hm.capacity * 2 % u32 in
        let m : ℕ = (cap + u32 - 1) % u32 in
        let positive : 0 < hm.capacity = omega (arith, v.mask) in
        let (fresh, run, (table, width, total, same)) =
          move_all-Moved type lawful m hm.entries cap hm.size v.table v.counted v.small
            (omega arith) in
        (
          (
            hm_ok,
            record hm {
              entries = fresh;
              mask = m;
              capacity = cap;
              rebuild_threshold = load_threshold cap;
            },
          ),
          rw (has, rw v.width at run),
          (
            refl,
            record {
              valid = record {
                mask = omega arith;
                width = width;
                counted = sym total;
                small = v.small;
                table = table;
              };
              reads = λ q. ap value? (same q) ∙ models.reads q;
            },
            omega arith,
            refl,
          ),
        )

    -- Whether or not memory is found, `_hmapGetIndex` goes on with a table for the same map.
    pub rebuild-Models :
        hm.capacity * 2 < u32 → Returns (rebuild mem hm) λ hm'. Models f hm' × (hm'.size ≡ hm.size)
    unfolding rebuild
    rebuild-Models room = elim (Bool-cases (should_rebuild hm)) [
      | inr no_need ↦ (hm, rw no_need, (models, refl))
      | inl full ↦ elim (Bool-cases mem.table) [
        | inl has ↦ let (r, run, p) = expand-Models has room in (r.1, rw (full, run), (p.1, p.3))
        | inr lacks ↦ (hm, rw (full, expand_lacking mem hm lacks), (models, refl))
      ]
    ]
