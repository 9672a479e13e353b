-- ===== src/Eloop/Register.antt =====
-- What eloopAddEvent and eloopDeleteEvent do to the registered flags, and what they ask of epoll.
use dictionary.Base.Int.{pos, above}
use dictionary.Base.{
  ℕ, ◌<◌, ◌≡◌, refl, sym, ◌∙◌, Bool, true, false, List, ◌>>=◌, Returns, put, arith, put-set,
  length-set, set, length, leb, ◌==◌, if◌then◌else◌, Bool-cases, eq_of_==, ==_refl, inl, inr, ◌&&◌,
  ◌||◌, not, ◌⊎◌,
}
use dictionary.Eloop.{
  Mask, union, without, is_add, Evt, Eloop, Epoll, Backend, Status, evt_ok, evt_err, state_delete,
  add_event, delete_event,
}
use dictionary.Eloop.{ctl_add, set_mask}
use dictionary.Eloop.Max.{
  mask_at, IsValid, mask_at-set, at-mask, add-IsMax, lower_max-IsMax, unmarked, mask_beyond,
}

module _ {C D : Type 0} where
  -- The new array after one event is replaced by one whose flags come from the old one's.
  put-masks :
      (idle : List (Evt C D)) (fd : ℕ) (f : Mask → Mask) (e : Evt C D)
      → fd < length idle
      → e.mask ≡ f (mask_at idle fd)
      → Returns (put idle fd e) (λ idle'.
        (length idle' ≡ length idle)
        × (mask_at idle' fd ≡ e.mask)
        × ((j : ℕ) → mask_at idle' j ≡ (if fd == j then f (mask_at idle j) else mask_at idle j)))
  put-masks idle fd f e h same = (
    set idle fd e,
    put-set idle fd e h,
    (
      length-set idle fd e,
      rw (mask_at-set idle fd e fd h, ==_refl fd),
      λ j. elim (Bool-cases (fd == j)) [
        | inl here ↦ rw (mask_at-set idle fd e j h, here, same, eq_of_== fd j here)
        | inr ne ↦ rw (mask_at-set idle fd e j h, ne)
      ],
    ),
  )

-- A flag that is taken away and added again
restored : (x y : Bool) → ((x && not y) || x) ≡ x
restored x y = ground arith

-- What becomes of the flags at `j` when `eloopAddEvent` on `fd` says `st`.
abbrev pub after_add : Status → ℕ → Mask → ℕ → Mask → Mask
after_add evt_err fd mask j old = old
after_add evt_ok fd mask j old = if fd == j then union old mask else old

-- What `eloopAddEvent` returns for the result of `eloopStateAdd`
abbrev pub said : Bool → Status
said true = evt_ok
said false = evt_err

module _ {C D K : Type 0} (backend : Backend C D K) where
  -- `eloopAddEvent` does nothing, or has the result and the kernel of one `eloopStateAdd`.
  abbrev pub Asked : K → Eloop C D → ℕ → Mask → Status × K × Eloop C D → Type 0
  Asked k el fd mask r =
      (r ≡ (evt_err, k, el))
      ⊎ ((e : Evt C D) × (r.0 ≡ said (backend.add k e fd mask).0)
          × (r.1 ≡ (backend.add k e fd mask).1))

  -- `eloopDeleteEvent` does nothing, or has the kernel of one `eloopStateDelete`.
  abbrev pub Withdrawn : K → Eloop C D → ℕ → Mask → K × Eloop C D → Type 0
  Withdrawn k el fd mask r = (r ≡ (k, el)) ⊎ ((e : Evt C D) × (r.0 ≡ backend.delete k e fd mask))

  pub add_event_lem :
      (k : K) (el : Eloop C D) (fd : ℕ) (mask : Mask) (cb : C) (content : D)
      → is_add mask ≡ false
      → IsValid el
      → Returns (add_event backend k el fd mask cb content) (λ r.
        IsValid r.2
        × Asked k el fd mask r
        × ((j : ℕ) → mask_at r.2.idle j ≡ after_add r.0 fd mask j (mask_at el.idle j)))
  unfolding add_event
  add_event_lem k el fd mask cb content busy v = elim (Bool-cases (leb el.count fd)) [
    | inl out ↦ ((evt_err, k, el), rw out, (v, inl refl, λ j. refl))
    | inr inside ↦
        let width = v.width in
        let h : fd < length el.idle = ground arith in
        let (e, read, same) = at-mask el.idle fd h in
        elim (Bool-cases (backend.add k e fd mask).0) [
          | inr refused ↦ (
            (evt_err, (backend.add k e fd mask).1, el),
            rw (inside, read, ◌>>=◌) (rw refused),
            (v, inr (e, rw refused refl, refl), λ j. refl),
          )
          | inl done ↦
              let e' : Evt C D = record {
                mask = union e.mask mask;
                read = if mask.read then cb else e.read;
                write = if mask.write then cb else e.write;
                content = content;
              } in
              let (idle', stored, (len, here, masks)) =
                put-masks el.idle fd (λ old. union old mask) e' h (rw same) in
              let max' = if above fd el.max then pos fd else el.max in
              (
                (evt_ok, (backend.add k e fd mask).1, record el { idle = idle'; max = max' }),
                rw (inside, read, ◌>>=◌) (rw done (rw (stored, ◌>>=◌))),
                (
                  record {
                    width = len ∙ v.width;
                    max = add-IsMax el.max el.idle idle' fd mask busy masks v.max;
                  },
                  inr (e, rw done refl, refl),
                  masks,
                ),
              )
        ]
  ]

  -- `eloopAddEvent`, with a mask that has a flag, on a loop whose `max` is the highest registered
  -- descriptor, does not fault and keeps it so. If it says EVT_OK the flags of `fd` get those of
  -- the mask and no others change; if it says EVT_ERR none do.
  pub add_event-IsValid :
      (k : K) (el : Eloop C D) (fd : ℕ) (mask : Mask) (cb : C) (content : D)
      → is_add mask ≡ false
      → IsValid el
      → Returns (add_event backend k el fd mask cb content) (λ r.
        IsValid r.2 × ((j : ℕ) → mask_at r.2.idle j ≡ after_add r.0 fd mask j (mask_at el.idle j)))
  add_event-IsValid k el fd mask cb content busy v =
      let (r, run, (is, asked, masks)) = add_event_lem k el fd mask cb content busy v in
      (r, run, (is, masks))

  pub delete_event_lem :
      (k : K) (el : Eloop C D) (fd : ℕ) (mask : Mask)
      → IsValid el
      → Returns (delete_event backend k el fd mask) (λ r.
        IsValid r.1
        × Withdrawn k el fd mask r
        × ((j : ℕ)
            → mask_at r.1.idle j
              ≡ (if fd == j then without (mask_at el.idle j) mask else mask_at el.idle j)))
  unfolding delete_event
  delete_event_lem k el fd mask v = elim (Bool-cases (leb el.count fd)) [
    | inl out ↦
        let width = v.width in
        (
          (k, el),
          rw out,
          (v, inl refl, unmarked el.idle fd mask (mask_beyond el.idle fd (ground arith))),
        )
    | inr inside ↦
        let width = v.width in
        let h : fd < length el.idle = ground arith in
        let (e, read, same) = at-mask el.idle fd h in
        elim (Bool-cases (is_add e.mask)) [
          | inl free ↦ (
            (k, el),
            rw (inside, read, ◌>>=◌) (rw free),
            (v, inl refl, unmarked el.idle fd mask (rw (sym same) free)),
          )
          | inr busy ↦
              let mask' = without e.mask mask in
              let (idle', stored, (len, here, masks)) =
                put-masks el.idle fd (λ old. without old mask) (record e { mask = mask' }) h
                  (rw same) in
              let (max', lowered, w) =
                lower_max-IsMax el.max el.idle idle' fd mask (omega (arith, len)) masks v.max in
              (
                (backend.delete k e fd mask, record el { idle = idle'; max = max' }),
                rw (inside, read, ◌>>=◌) (rw busy (rw (stored, ◌>>=◌) (rw (rw here at lowered)))),
                (record { width = len ∙ v.width; max = w }, inr (e, refl), masks),
              )
        ]
  ]

  -- `eloopDeleteEvent` on a loop whose `max` is the highest registered descriptor does not fault,
  -- keeps it so, takes the mask's flags from `fd`, and changes no others.
  pub delete_event-IsValid :
      (k : K) (el : Eloop C D) (fd : ℕ) (mask : Mask)
      → IsValid el
      → Returns (delete_event backend k el fd mask) (λ r.
        IsValid r.1
        × ((j : ℕ)
            → mask_at r.1.idle j
              ≡ (if fd == j then without (mask_at el.idle j) mask else mask_at el.idle j)))
  delete_event-IsValid k el fd mask v =
      let (r, run, (is, asked, masks)) = delete_event_lem k el fd mask v in (r, run, (is, masks))

module _ {C D K : Type 0} (epoll : Epoll K) where
  -- Whatever flags are to be deleted, if a descriptor is registered for reading or writing, the
  -- request to the kernel is EPOLL_CTL_ADD with the old events.
  pub delete_request :
      (k : K) (ev : Evt C D) (fd : ℕ) (mask : Mask)
      → (ev.mask.read || ev.mask.write) ≡ true
      → state_delete epoll k ev fd mask ≡ (epoll.epoll_ctl k ctl_add fd (set_mask ev.mask)).1
  unfolding state_delete
  delete_request k ev fd mask h =
      let r = restored ev.mask.read mask.read in
      let w = restored ev.mask.write mask.write in rw (state_delete, r, w) (rw h)
