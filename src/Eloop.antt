-- ===== src/Eloop.antt =====
-- The event loop of eloop.c and eloop.h, with the part that epoll_loop.c includes on Linux. The
-- kernel's epoll is a parameter, and so are the callbacks. File descriptors are not negative.
pub mod Max
pub mod Register
pub mod Process
pub mod Round
pub mod Lifetime
pub mod Kqueue
pub mod Tests
use dictionary.Base.Int.{ℤ, pos, negsuc, above}
use dictionary.Base.{
  ℕ, zero, suc, ◌+◌, Bool, true, false, not, ◌&&◌, ◌||◌, Option, none, some, List, [], ◌∷◌, Run, ok,
  fault, ◌>>=◌, at, put, length, replicate, ltb, leb, ◌==◌, if◌then◌else◌,
}

-- An `int` made of the flags EVT_READ, EVT_WRITE and EVT_DELETE, bit by bit.
pub record Mask : Type 0 where
  pub read : Bool
  pub write : Bool
  pub delete : Bool

abbrev pub evt_add : Mask
evt_add = record { read = false; write = false; delete = false }

abbrev pub evt_read : Mask
evt_read = record { read = true; write = false; delete = false }

-- `a | b`, `a & ~b`, `a == EVT_ADD` and `a == EVT_DELETE`
abbrev pub union : Mask → Mask → Mask
union a b = record {
  read = a.read || b.read;
  write = a.write || b.write;
  delete = a.delete || b.delete;
}

abbrev pub without : Mask → Mask → Mask
without a b = record {
  read = a.read && not b.read;
  write = a.write && not b.write;
  delete = a.delete && not b.delete;
}

abbrev pub is_add : Mask → Bool
is_add a = not (a.read || a.write || a.delete)

abbrev pub is_delete : Mask → Bool
is_delete a = not (a.read || a.write) && a.delete

-- `struct evt`; its `fd` is used in the active array only.
pub record Evt (C D : Type 0) : Type 0 where
  pub mask : Mask
  pub read : C
  pub write : C
  pub content : D

-- `struct eloop`, less the kernel's state behind `state`
pub record Eloop (C D : Type 0) : Type 0 where
  pub max : ℤ
  pub count : ℕ
  pub idle : List (Evt C D)
  pub active : List (ℕ × Mask)

-- EPOLLIN, EPOLLOUT, EPOLLERR and EPOLLHUP
pub record Events : Type 0 where
  pub epollin : Bool
  pub epollout : Bool
  pub epollerr : Bool
  pub epollhup : Bool

pub data Op : Type 0 where
  ctl_add ctl_mod ctl_del : Op

-- The kernel: `epoll_ctl` tells whether it succeeds, `epoll_wait` gives what is ready or fails.
pub record Epoll (K : Type 0) : Type 0 where
  pub epoll_ctl : K → Op → ℕ → Events → Bool × K
  pub epoll_wait : K → ℕ → Option (List (ℕ × Events)) × K

-- EVT_ERR and EVT_OK
pub data Status : Type 0 where
  evt_err evt_ok : Status

-- `_eloopStateSetMask` on a cleared event
abbrev pub set_mask : Mask → Events
set_mask mask = record {
  epollin = mask.read;
  epollout = mask.write;
  epollerr = false;
  epollhup = false;
}

-- What `eloopPoll` makes of the events that are ready on a descriptor.
abbrev pub ready_mask : Events → Mask
ready_mask e =
    let both = e.epollerr || e.epollhup in
    record { read = e.epollin || both; write = e.epollout || both; delete = false }

-- What the loop of `eloopPoll` takes from each event
abbrev pub ready_events : {E : Type 0} → (E → Mask) → List (ℕ × E) → List (ℕ × Mask)
ready_events f [] = []
ready_events f ((fd, e) ∷ events) = (fd, f e) ∷ ready_events f events

abbrev pub ready :
    {E K : Type 0} → (E → Mask) → Option (List (ℕ × E)) × K → Option (List (ℕ × Mask)) × K
ready f (none, k) = (none, k)
ready f (some events, k) = (some (ready_events f events), k)

-- The part for the system's kernel: `eloopStateAdd`, `eloopStateDelete`, and what `eloopPoll` puts
-- into the active array, or nothing where it fails.
pub record Backend (C D K : Type 0) : Type 0 where
  pub add : K → Evt C D → ℕ → Mask → Bool × K
  pub delete : K → Evt C D → ℕ → Mask → K
  pub wait : K → ℕ → Option (List (ℕ × Mask)) × K

module _ {C D : Type 0} where
  -- What `eloopCreate` makes where its allocations succeed and their size fits an `int`; `fresh` is what
  -- `malloc` left in an `evt`. Lifetime models the function with its errors.
  unfoldable pub create : Evt C D → ℕ → Eloop C D
  create fresh event_count = record {
    max = negsuc 0;
    count = event_count;
    idle = replicate event_count (record fresh { mask = evt_add });
    active = replicate event_count (0, evt_add);
  }

  -- The loop at the end of `eloopDeleteEvent`, from `i = n - 1` down.
  unfoldable pub scan : ℕ → List (Evt C D) → Run ℤ
  scan zero idle = ok (negsuc 0)
  scan (suc i) idle =
      at idle i >>= λ ev. elim (is_add ev.mask) [ false ↦ ok (pos i) | true ↦ scan i idle ]

  -- `el->max` after the event at `fd` has lost its flags.
  unfoldable pub lower_max : ℤ → ℕ → Mask → List (Evt C D) → Run ℤ
  unfolding scan
  lower_max (negsuc n) fd mask idle = ok (negsuc n)
  lower_max (pos m) fd mask idle = if fd == m && is_add mask then scan m idle else ok (pos m)

module _ {C D K : Type 0} (epoll : Epoll K) where
  -- `eloopStateAdd`
  unfoldable pub state_add : K → Evt C D → ℕ → Mask → Bool × K
  state_add k ev fd mask =
      let op = if is_add ev.mask then ctl_add else ctl_mod in
      epoll.epoll_ctl k op fd (set_mask (union mask ev.mask))

  -- `eloopStateDelete`; the result of `epoll_ctl` is not looked at.
  unfoldable pub state_delete : K → Evt C D → ℕ → Mask → K
  state_delete k ev fd mask =
      let new_mask = union (without ev.mask mask) ev.mask in
      let op = if is_delete new_mask then ctl_del else ctl_add in
      (epoll.epoll_ctl k op fd (set_mask new_mask)).1

  -- The functions of epoll_loop.c
  unfoldable pub epoll_backend : Backend C D K
  unfolding state_add state_delete
  epoll_backend = record {
    add = λ k ev fd mask. state_add k ev fd mask;
    delete = λ k ev fd mask. state_delete k ev fd mask;
    wait = λ k n. ready ready_mask (epoll.epoll_wait k n);
  }

module _ {C D K : Type 0} (backend : Backend C D K) where
  -- `eloopAddEvent`
  unfoldable pub add_event : K → Eloop C D → ℕ → Mask → C → D → Run (Status × K × Eloop C D)
  add_event k el fd mask cb content = if leb el.count fd then ok (evt_err, k, el) else do
    ev ← at el.idle fd
    let (done, k') = backend.add k ev fd mask
    if done
        then (do
          let ev' : Evt C D = record {
            mask = union ev.mask mask;
            read = if mask.read then cb else ev.read;
            write = if mask.write then cb else ev.write;
            content = content;
          }
          idle' ← put el.idle fd ev'
          let max' = if above fd el.max then pos fd else el.max
          ok (evt_ok, k', record el { idle = idle'; max = max' }))
        else ok (evt_err, k', el)

  -- `eloopDeleteEvent`
  unfoldable pub delete_event : K → Eloop C D → ℕ → Mask → Run (K × Eloop C D)
  unfolding lower_max
  delete_event k el fd mask = if leb el.count fd then ok (k, el) else do
    ev ← at el.idle fd
    if is_add ev.mask then ok (k, el) else (do
      let k' = backend.delete k ev fd mask
      let mask' = without ev.mask mask
      idle' ← put el.idle fd (record ev { mask = mask' })
      max' ← lower_max el.max fd mask' idle'
      ok (k', record el { idle = idle'; max = max' }))
