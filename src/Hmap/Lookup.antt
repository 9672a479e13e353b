-- ===== src/Hmap/Lookup.antt =====
-- What hmapGet finds after hmapAdd.
use dictionary.Base.{
  ◌+◌, ◌*◌, ◌<◌, ◌≡◌, refl, Bool, not, ◌&&◌, ◌||◌, Option, some, ok, Returns, is_some, Bool-cases,
  inl, inr, if◌then◌else◌, arith,
}
use dictionary.Hmap.Bucket.{IsLawful, eqb}
use dictionary.Hmap.Refines.{IsValid, Models, contents, update, get-Models}
use dictionary.Hmap.Update.{add-Models}
use dictionary.Hmap.{HmapType, Hmap, Memory, hm_err, hm_ok, hm_found, get, add, u32}

ok-update {ℓ} :
    {K V : Type ℓ} (type : HmapType K) (f : K → Option V) (k q : K) (x : V) (there entry : Bool)
    → ok ((if there || not entry then f else update type f k (some x)) q)
      ≡ (if eqb type q k && (not there && entry) then ok (some x) else ok (f q))
ok-update type f k q x there entry = elim (Bool-cases there) [
  | inl e ↦ rw (e) (ground arith)
  | inr e ↦ elim (Bool-cases entry) [
    | inl m ↦ elim (Bool-cases (eqb type q k)) [ inl s ↦ simp (e, m, s) | inr s ↦ simp (e, m, s) ]
    | inr m ↦ elim (Bool-cases (eqb type q k)) [ inl s ↦ simp (e, m, s) | inr s ↦ simp (e, m, s) ]
  ]
]

module _ {ℓ} {K V : Type ℓ} (type : HmapType K) (lawful : IsLawful type) (mem : Memory) where
  -- On a well-formed table, with a lawful type of keys, whose count and capacity leave room, and
  -- where `hmapGet` gives `old` for the key: `hmapAdd` does not fault and leaves a well-formed table; it
  -- says whether the key was there, was added or found no memory; and then `hmapGet` gives the new value
  -- for the key if it was added, and for every other key, or if it was not, what it gave before, whether
  -- or not the table has grown.
  pub get-add :
      (hm : Hmap K V) (k : K) (x : V) (old : Option V)
      → IsValid type hm
      → hm.capacity * 2 < u32
      → hm.size + 1 < u32
      → get type hm k ≡ ok old
      → Returns (add type mem hm k x) λ (status, hm').
        (status ≡ (if is_some old then hm_found else if mem.entry then hm_ok else hm_err))
        × IsValid type hm'
        × ((q : K)
            → get type hm' q ≡ (
                if eqb type q k && (not (is_some old) && mem.entry)
                then ok (some x)
                else get type hm q))
  get-add hm k x old valid room small before =
      let now : Models type (contents type hm) hm = record { valid = valid; reads = λ q. refl } in
      let same : contents type hm k ≡ old = cc (get-Models type now k) in
      let ((status, hm'), run, (said, models, _)) = add-Models type lawful mem now room k x small in
      (
        (status, hm'),
        run,
        (
          rw same at said,
          models.valid,
          λ q.
              rw (get-Models type models q, get-Models type now q, same)
                (ok-update type (contents type hm) k q x (is_some old) mem.entry),
        ),
      )
