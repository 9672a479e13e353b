-- ===== src/Eloop/Kqueue.antt =====
-- kevent_loop.c, which eloop.c includes on BSD and macOS in place of epoll_loop.c. The kernel's kqueue
-- is a parameter.
pub mod Sync
pub mod Reach
pub mod Tests
use dictionary.Base.{ℕ, Bool, true, false, Option, List, if◌then◌else◌}
use dictionary.Eloop.{Mask, evt_add, evt_read, Evt, Backend, ready}

-- The filters of an event
pub data Filter : Type 0 where
  evfilt_read evfilt_write evfilt_other : Filter

pub data Action : Type 0 where
  ev_add ev_delete : Action

-- The kernel: `__kevent` with one change tells whether it succeeds, and `kevent` without one gives the
-- events that are ready or fails.
pub record Kqueue (K : Type 0) : Type 0 where
  pub change : K → ℕ → Filter → Action → Bool × K
  pub wait : K → ℕ → Option (List (ℕ × Filter)) × K

abbrev pub evt_write : Mask
evt_write = record { read = false; write = true; delete = false }

-- What the loop of `eloopPoll` makes of an event's filter
abbrev pub filter_mask : Filter → Mask
filter_mask evfilt_read = evt_read
filter_mask evfilt_write = evt_write
filter_mask evfilt_other = evt_add

module _ {K : Type 0} (kqueue : Kqueue K) where
  -- One of the two branches of `eloopStateAdd` and of `eloopStateDelete`, where `flag` is set
  abbrev pub change_if : Bool → K → ℕ → Filter → Action → Bool × K
  change_if true k fd filter action = kqueue.change k fd filter action
  change_if false k fd filter action = (true, k)

  -- `eloopStateAdd`
  unfoldable pub kqueue_add : K → ℕ → Mask → Bool × K
  kqueue_add k fd mask =
      let (added, k') = change_if mask.read k fd evfilt_read ev_add in
      if added then change_if mask.write k' fd evfilt_write ev_add else (false, k')

  -- `eloopStateDelete`; the results are not looked at.
  unfoldable pub kqueue_delete : K → ℕ → Mask → K
  kqueue_delete k fd mask =
      let k' = (change_if mask.read k fd evfilt_read ev_delete).1 in
      (change_if mask.write k' fd evfilt_write ev_delete).1

  -- The functions of kevent_loop.c
  unfoldable pub kqueue_backend : {C D : Type 0} → Backend C D K
  unfolding kqueue_add kqueue_delete
  kqueue_backend = record {
    add = λ k ev fd mask. kqueue_add k fd mask;
    delete = λ k ev fd mask. kqueue_delete k fd mask;
    wait = λ k n. ready filter_mask (kqueue.wait k n);
  }
