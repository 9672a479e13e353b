-- ===== src/Eloop/Kqueue/Sync.antt =====
-- On kqueue, the kernel watches what the loop has registered.
use dictionary.Base.{
  ℕ, ◌≡◌, refl, ◌∙◌, Bool, true, false, ◌&&◌, ◌||◌, not, if◌then◌else◌, ◌==◌, Bool-cases, inl, inr,
  arith,
}
use dictionary.Eloop.{Mask, union, without, Eloop}
use dictionary.Eloop.Kqueue.{
  Filter, evfilt_read, evfilt_write, Action, ev_add, ev_delete, Kqueue, filter_mask, change_if,
  kqueue_add, kqueue_delete,
}
use dictionary.Eloop.Max.{mask_at}

-- The flags for reading and writing are the same.
abbrev pub SameFlags : Mask → Mask → Type 0
SameFlags a b = (a.read ≡ b.read) × (a.write ≡ b.write)

-- The kernel, through a view of it, watches exactly what is registered.
abbrev pub InSync : {C D K : Type 0} → (K → ℕ → Mask) → K → Eloop C D → Type 0
InSync watched k el = (j : ℕ) → SameFlags (watched k j) (mask_at el.idle j)

-- What kqueue(2) says of `kevent`, for a view of the kernel that gives the filters of a descriptor as
-- flags: EV_ADD adds the filter or fails and changes nothing; after EV_DELETE the filter is not there,
-- since the call fails only where it was not.
pub record IsKqueue {K : Type 0} (kqueue : Kqueue K) (watched : K → ℕ → Mask) : Type 0 where
  pub added :
      (k : K) (fd : ℕ) (f : Filter) (j : ℕ)
      → (kqueue.change k fd f ev_add).0 ≡ true
      → watched (kqueue.change k fd f ev_add).1 j
        ≡ (if fd == j then union (watched k j) (filter_mask f) else watched k j)
  pub refused :
      (k : K) (fd : ℕ) (f : Filter) (j : ℕ)
      → (kqueue.change k fd f ev_add).0 ≡ false
      → watched (kqueue.change k fd f ev_add).1 j ≡ watched k j
  pub deleted :
      (k : K) (fd : ℕ) (f : Filter) (j : ℕ)
      → watched (kqueue.change k fd f ev_delete).1 j
        ≡ (if fd == j then without (watched k j) (filter_mask f) else watched k j)

-- Flags that are added or taken away one by one
union-flags :
    (m mask : Mask)
    → SameFlags
        (let a = if mask.read then union m (filter_mask evfilt_read) else m in
          if mask.write then union a (filter_mask evfilt_write) else a)
        (union m mask)
union-flags m mask = go m.read m.write m.delete mask.read mask.write
  where
    go :
        (r w d r' w' : Bool)
        → SameFlags
            (let m : Mask = record { read = r; write = w; delete = d } in
              let a = if r' then union m (filter_mask evfilt_read) else m in
              if w' then union a (filter_mask evfilt_write) else a)
            (record { read = r || r'; write = w || w'; delete = false })
    go r w d false false = (ground arith, ground arith)
    go r w d false true = (ground arith, ground arith)
    go r w d true false = (ground arith, ground arith)
    go r w d true true = (ground arith, ground arith)

without-flags :
    (m mask : Mask)
    → SameFlags
        (let a = if mask.read then without m (filter_mask evfilt_read) else m in
          if mask.write then without a (filter_mask evfilt_write) else a)
        (without m mask)
without-flags m mask = go m.read m.write m.delete mask.read mask.write
  where
    go :
        (r w d r' w' : Bool)
        → SameFlags
            (let m : Mask = record { read = r; write = w; delete = d } in
              let a = if r' then without m (filter_mask evfilt_read) else m in
              if w' then without a (filter_mask evfilt_write) else a)
            (record { read = r && not r'; write = w && not w'; delete = false })
    go r w d false false = (ground arith, ground arith)
    go r w d false true = (ground arith, ground arith)
    go r w d true false = (ground arith, ground arith)
    go r w d true true = (ground arith, ground arith)

module _ {K : Type 0} (kqueue : Kqueue K) (watched : K → ℕ → Mask)
    (laws : IsKqueue kqueue watched) where
  change_if-added :
      (flag : Bool) (k : K) (fd : ℕ) (f : Filter) (j : ℕ)
      → (change_if kqueue flag k fd f ev_add).0 ≡ true
      → (fd == j) ≡ true
      → watched (change_if kqueue flag k fd f ev_add).1 j
        ≡ (if flag then union (watched k j) (filter_mask f) else watched k j)
  change_if-added false k fd f j done here = refl
  change_if-added true k fd f j done here = laws.added k fd f j done ∙ rw here refl

  change_if-deleted :
      (flag : Bool) (k : K) (fd : ℕ) (f : Filter) (j : ℕ)
      → (fd == j) ≡ true
      → watched (change_if kqueue flag k fd f ev_delete).1 j
        ≡ (if flag then without (watched k j) (filter_mask f) else watched k j)
  change_if-deleted false k fd f j here = refl
  change_if-deleted true k fd f j here = laws.deleted k fd f j ∙ rw here refl

  change_if-elsewhere :
      (flag : Bool) (k : K) (fd : ℕ) (f : Filter) (action : Action) (j : ℕ)
      → (fd == j) ≡ false
      → watched (change_if kqueue flag k fd f action).1 j ≡ watched k j
  change_if-elsewhere false k fd f action j ne = refl
  change_if-elsewhere true k fd f ev_delete j ne = laws.deleted k fd f j ∙ rw ne refl
  change_if-elsewhere true k fd f ev_add j ne = elim (Bool-cases (kqueue.change k fd f ev_add).0) [
    | inl done ↦ laws.added k fd f j done ∙ rw ne refl
    | inr failed ↦ laws.refused k fd f j failed
  ]

  kqueue_add_here :
      (k : K) (fd : ℕ) (mask : Mask) (j : ℕ)
      → (kqueue_add kqueue k fd mask).0 ≡ true
      → (fd == j) ≡ true
      → SameFlags (watched (kqueue_add kqueue k fd mask).1 j) (union (watched k j) mask)
  unfolding kqueue_add
  kqueue_add_here k fd mask j done here =
      let first = change_if kqueue mask.read k fd evfilt_read ev_add in
      elim (Bool-cases first.0) [
        | inr failed ↦ let bad : false ≡ true = rw failed at done in cc
        | inl yes1 ↦
            let done2 : (change_if kqueue mask.write first.1 fd evfilt_write ev_add).0 ≡ true =
              rw yes1 at done in
            let e1 = change_if-added mask.read k fd evfilt_read j yes1 here in
            let e2 = change_if-added mask.write first.1 fd evfilt_write j done2 here in
            rw (yes1, e2, e1) (union-flags (watched k j) mask)
      ]

  kqueue_add_elsewhere :
      (k : K) (fd : ℕ) (mask : Mask) (j : ℕ)
      → (fd == j) ≡ false
      → watched (kqueue_add kqueue k fd mask).1 j ≡ watched k j
  unfolding kqueue_add
  kqueue_add_elsewhere k fd mask j ne =
      let first = change_if kqueue mask.read k fd evfilt_read ev_add in
      let e1 = change_if-elsewhere mask.read k fd evfilt_read ev_add j ne in
      elim (Bool-cases first.0) [
        | inr failed ↦ rw failed e1
        | inl done ↦
            rw done (change_if-elsewhere mask.write first.1 fd evfilt_write ev_add j ne ∙ e1)
      ]

  kqueue_delete_here :
      (k : K) (fd : ℕ) (mask : Mask) (j : ℕ)
      → (fd == j) ≡ true
      → SameFlags (watched (kqueue_delete kqueue k fd mask) j) (without (watched k j) mask)
  unfolding kqueue_delete
  kqueue_delete_here k fd mask j here =
      let k' = (change_if kqueue mask.read k fd evfilt_read ev_delete).1 in
      let e1 = change_if-deleted mask.read k fd evfilt_read j here in
      let e2 = change_if-deleted mask.write k' fd evfilt_write j here in
      rw (e2, e1) (without-flags (watched k j) mask)

  kqueue_delete_elsewhere :
      (k : K) (fd : ℕ) (mask : Mask) (j : ℕ)
      → (fd == j) ≡ false
      → watched (kqueue_delete kqueue k fd mask) j ≡ watched k j
  unfolding kqueue_delete
  kqueue_delete_elsewhere k fd mask j ne =
      let k' = (change_if kqueue mask.read k fd evfilt_read ev_delete).1 in
      change_if-elsewhere mask.write k' fd evfilt_write ev_delete j ne
      ∙ change_if-elsewhere mask.read k fd evfilt_read ev_delete j ne

  module _ {C D : Type 0} where
    pub add-InSync :
        (k k' : K) (el el' : Eloop C D) (fd : ℕ) (mask : Mask)
        → InSync watched k el
        → (kqueue_add kqueue k fd mask).0 ≡ true
        → k' ≡ (kqueue_add kqueue k fd mask).1
        → ((j : ℕ)
            → mask_at el'.idle j
              ≡ (if fd == j then union (mask_at el.idle j) mask else mask_at el.idle j))
        → InSync watched k' el'
    add-InSync k k' el el' fd mask sync done ek masks j =
        let (r, w) = sync j in
        elim (Bool-cases (fd == j)) [
          | inl here ↦
              let (r', w') = kqueue_add_here k fd mask j done here in
              rw (masks j, here, ek) (r' ∙ rw r refl, w' ∙ rw w refl)
          | inr ne ↦
              let e = kqueue_add_elsewhere k fd mask j ne in rw (masks j, ne, ek) (rw e r, rw e w)
        ]

    pub delete-InSync :
        (k k' : K) (el el' : Eloop C D) (fd : ℕ) (mask : Mask)
        → InSync watched k el
        → k' ≡ kqueue_delete kqueue k fd mask
        → ((j : ℕ)
            → mask_at el'.idle j
              ≡ (if fd == j then without (mask_at el.idle j) mask else mask_at el.idle j))
        → InSync watched k' el'
    delete-InSync k k' el el' fd mask sync ek masks j =
        let (r, w) = sync j in
        elim (Bool-cases (fd == j)) [
          | inl here ↦
              let (r', w') = kqueue_delete_here k fd mask j here in
              rw (masks j, here, ek) (r' ∙ rw r refl, w' ∙ rw w refl)
          | inr ne ↦
              let e = kqueue_delete_elsewhere k fd mask j ne in
              rw (masks j, ne, ek) (rw e r, rw e w)
        ]
