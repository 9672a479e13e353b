-- ===== src/Hmap/Update.antt =====
-- `hmapContains`, `hmapAdd` and `hmapDelete` on every branch.
use dictionary.Base.{
  ℕ, ◌+◌, ◌-◌, ◌*◌, ◌%◌, ◌<◌, ◌≡◌, refl, ◌∙◌, sym, ap, Option, none, some, [], ◌∷◌, arith, Returns,
  length, length-flatten-set, length-set, Bool-cases, Option-cases, inl, inr, if◌then◌else◌,
  is_some, set, not, ◌||◌, ◌>>=◌,
}
use dictionary.Hmap.Bucket.{IsLawful, eqb, unlink-none, unlink-some, length-without, key-lookup}
use dictionary.Hmap.Refines.{Models, contents, value?, update, rebuild-Models}
use dictionary.Hmap.Table.{
  home, bucket_of, view, Replaces, home-lt, at-home, put-home, set-IsTable, view-set, cons-Replaces,
  without-Replaces,
}
use dictionary.Hmap.{
  HmapType, Entry, Bucket, Hmap, Memory, hm_err, hm_ok, hm_found, hm_not_found, get_index, contains,
  add, delete, u32,
}

module _ {ℓ} {K V : Type ℓ} (type : HmapType K) where
  module _ (lawful : IsLawful type) {f : K → Option V} {hm : Hmap K V} (models : Models type f hm)
      (k : K) where
    -- A write of the key's bucket, with the count set to the number of entries that results.
    set-Models :
        {v : Option (Entry K V)} {c : Bucket K V} (n : ℕ)
        → Replaces type hm.mask hm.entries k v c
        → n + length (bucket_of type hm.mask hm.entries k) ≡ hm.size + length c
        → n < u32
        → Models type
            (update type f k (value? v))
            (record hm { entries = set hm.entries (home type hm.mask k) c; size = n })
    unfolding contents
    set-Models {v} {c} n r count small =
        let t = models.valid.table in
        record {
          valid = record {
            mask = models.valid.mask;
            width = length-set hm.entries _ c ∙ models.valid.width;
            counted =
                omega (
                  arith,
                  length-flatten-set hm.entries _ c (home-lt type t k),
                  models.valid.counted,
                );
            small = small;
            table = set-IsTable type lawful t k r;
          };
          reads = λ q. rw (view-set type lawful t k r q) (reads_step q);
        }
      where
        reads_step :
            (q : K)
            → value? (if eqb type q k then v else view type hm.mask hm.entries q)
              ≡ update type f k (value? v) q
        reads_step q = elim (Bool-cases (eqb type q k)) [
          | inl same ↦ rw same
          | inr other ↦ rw other (models.reads q)
        ]

  module _ {f : K → Option V} {hm : Hmap K V} (models : Models type f hm) (k : K) where
    view-absent : f k ≡ none → view type hm.mask hm.entries k ≡ none
    unfolding view contents
    view-absent h = none_of_value (view type hm.mask hm.entries k) (models.reads k ∙ h)
      where
        none_of_value : (o : Option (Entry K V)) → value? o ≡ none → o ≡ none
        none_of_value none h = refl
        none_of_value (some e) h = cc

    view-present :
        (v : V)
        → f k ≡ some v
        → (e : Entry K V) × (view type hm.mask hm.entries k ≡ some e) × (e.value ≡ v)
    unfolding view contents
    view-present v h = some_of_value (view type hm.mask hm.entries k) (models.reads k ∙ h)
      where
        some_of_value :
            (o : Option (Entry K V))
            → value? o ≡ some v
            → (e : Entry K V) × (o ≡ some e) × (e.value ≡ v)
        some_of_value none h = cc
        some_of_value (some e) h = (e, refl, cc)

  module _ (lawful : IsLawful type) (mem : Memory) {f : K → Option V} {hm : Hmap K V}
      (models : Models type f hm) (room : hm.capacity * 2 < u32) (k : K) where
    -- `_hmapGetIndex` gives no index exactly for a key that is there.
    get_index-Models : Returns (get_index type mem hm k (type.hash_fn k)) λ (idx, hm').
        (idx ≡ (if is_some (f k) then none else some (home type hm'.mask k)))
        × Models type f hm'
        × (hm'.size ≡ hm.size)
    unfolding get_index view
    get_index-Models =
        let (hm', run, (models', size)) = rebuild-Models type lawful mem hm models room in
        let read = at-home type models'.valid.table k _ refl in
        elim (Option-cases (f k)) [
          | inl absent ↦ (
            (some (home type hm'.mask k), hm'),
            rw (run, ◌>>=◌, read, view-absent models' k absent),
            (rw absent, models', size),
          )
          | inr (v, present) ↦
              let (e, found, _) = view-present models' k v present in
              ((none, hm'), rw (run, ◌>>=◌, read, found), (rw present, models', size))
        ]

    -- `hmapContains` tells whether the key is there, and keeps the map.
    pub contains-Models : Returns (contains type mem hm k) λ (status, hm').
        (status ≡ (if is_some (f k) then hm_found else hm_not_found))
        × Models type f hm'
        × (hm'.size ≡ hm.size)
    unfolding contains
    contains-Models =
        let ((idx, hm'), run, (e, models', size)) = get_index-Models in
        elim (Bool-cases (is_some (f k))) [
          | inl there ↦ ((hm_found, hm'), rw (run, ◌>>=◌, e, there), (rw there, models', size))
          | inr missing ↦
              ((hm_not_found, hm'), rw (run, ◌>>=◌, e, missing), (rw missing, models', size))
        ]

    -- `hmapAdd` leaves a key that is there alone, and otherwise adds it if memory is found. It
    -- does not fault, and the count goes up exactly when the key is added.
    pub add-Models :
        (x : V)
        → hm.size + 1 < u32
        → Returns (add type mem hm k x) λ (status, hm').
          (status ≡ (if is_some (f k) then hm_found else if mem.entry then hm_ok else hm_err))
          × Models type (if is_some (f k) || not mem.entry then f else update type f k (some x)) hm'
          × (hm'.size ≡ (if is_some (f k) || not mem.entry then hm.size else hm.size + 1))
    unfolding add
    add-Models x small =
        let ((idx, hm'), run, (e, models', size)) = get_index-Models in
        let t = models'.valid.table in
        elim (Option-cases (f k)) [
          | inr (v, present) ↦ (
            (hm_found, hm'),
            rw (run, ◌>>=◌, e, present),
            (rw present, rw present models', rw present size),
          )
          | inl absent ↦ elim (Bool-cases mem.entry) [
            | inr lacks ↦ (
              (hm_err, hm'),
              rw (run, ◌>>=◌, e, absent) (simp lacks),
              (simp (absent, lacks), simp (absent, lacks) models', simp (absent, lacks) size),
            )
            | inl has ↦
                let new_he : Entry K V = record { key = k; value = x; hash = type.hash_fn k } in
                let bs =
                  set hm'.entries (home type hm'.mask k)
                    (new_he ∷ bucket_of type hm'.mask hm'.entries k) in
                let grown : (hm'.size + 1) % u32 ≡ hm.size + 1 = omega arith in
                let r = cons-Replaces type lawful t new_he refl (view-absent models' k absent) in
                let m =
                  set-Models lawful models' k ((hm'.size + 1) % u32) r (omega arith)
                    (omega arith) in
                (
                  (hm_ok, record hm' { entries = bs; size = (hm'.size + 1) % u32 }),
                  rw (run, ◌>>=◌, e, absent)
                      (simp has (rw (at-home type t k _ refl, put-home type t k _ _ refl))),
                  (simp (absent, has), simp (absent, has) m, simp (absent, has) grown),
                )
          ]
        ]

  -- `hmapDelete` hands back the key's entry, if there is one, and the map without it.
  module _ (lawful : IsLawful type) {f : K → Option V} {hm : Hmap K V} (models : Models type f hm)
      (k : K) where
    pub delete-Models : Returns (delete type hm k) λ (out, hm').
        (value? out ≡ f k)
        × Models type (update type f k none) hm'
        × (hm'.size + (if is_some (f k) then 1 else 0) ≡ hm.size)
        × ((e : Entry K V) → out ≡ some e → e.key ≡ k)
    unfolding delete view
    delete-Models =
        let t = models.valid.table in
        let read = at-home type t k _ refl in
        elim (Option-cases (f k)) [
          | inl absent ↦
              let gone = unlink-none type k _ (view-absent models k absent) in
              (
                (none, hm),
                rw (read, ◌>>=◌, gone),
                (sym absent, same absent, rw absent (omega arith), λ e h. cc),
              )
          | inr (v, present) ↦
              let (e, found, val) = view-present models k v present in
              let out = unlink-some type k _ e found in
              let shorter = length-without type k _ e found in
              let all = length-flatten-set hm.entries _ [] (home-lt type t k) in
              let filled : 0 < hm.size = omega (arith, all, shorter, models.valid.counted) in
              let m =
                set-Models lawful models k ((hm.size + u32 - 1) % u32)
                  (without-Replaces type lawful t k) (omega arith) (omega arith) in
              (
                (some e, record hm { entries = _; size = (hm.size + u32 - 1) % u32 }),
                rw (read, ◌>>=◌, out, put-home type t k _ _ refl),
                (
                  rw (val, present),
                  m,
                  rw present (omega arith),
                  λ e' h. cc (key-lookup type lawful _ _ k _ e (t.placed _) found),
                ),
              )
        ]
      where
        same : f k ≡ none → Models type (update type f k none) hm
        same absent = record {
          valid = models.valid;
          reads = λ q. elim (Bool-cases (eqb type q k)) [
            | inl yes_k ↦
                let e : q ≡ k = (lawful.keycmp_iff q k).0 yes_k in
                rw yes_k (models.reads q ∙ ap f e ∙ absent)
            | inr other ↦ rw other (models.reads q)
          ];
        }
