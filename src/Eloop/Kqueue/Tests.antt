-- ===== src/Eloop/Kqueue/Tests.antt =====
-- Runs of the event loop on a kernel that keeps the flags it is asked to watch.
use dictionary.Base.Int.{pos}
use dictionary.Base.{
  ℕ, ◌≡◌, refl, Bool, true, false, none, [], ◌∷◌, if◌then◌else◌, ◌==◌, at, put, replicate, Returns,
}
use dictionary.Eloop.{
  Mask, evt_add, evt_read, union, without, Evt, Eloop, evt_err, create, add_event,
}
use dictionary.Eloop.Kqueue.{
  Filter, evfilt_read, evfilt_write, Action, ev_add, ev_delete, Kqueue, evt_write, filter_mask,
  kqueue_backend,
}
use dictionary.Eloop.Kqueue.Reach.{Reach}

abbrev Watches : Type 0
Watches = ℕ → Mask

abbrev changed : Watches → ℕ → Filter → Action → Watches
changed k fd f ev_add = λ j. if fd == j then union (k j) (filter_mask f) else k j
changed k fd f ev_delete = λ j. if fd == j then without (k j) (filter_mask f) else k j

-- It refuses to watch the descriptor 2 for writing.
abbrev answer : ℕ → Filter → Action → Bool
answer fd evfilt_write ev_add = if fd == 2 then false else true
answer fd f action = true

abbrev watcher : Kqueue Watches
watcher = record {
  change =
      λ k fd f action. let b = answer fd f action in (b, if b then changed k fd f action else k);
  wait = λ k n. (none, k);
}

abbrev nothing : Watches
nothing = λ j. evt_add

abbrev fresh : Evt ℕ ℕ
fresh = record { mask = evt_add; read = 0; write = 0; content = 0 }

abbrev both : Mask
both = record { read = true; write = true; delete = false }

-- The loop after `eloopAddEvent` on descriptor 1 for reading and writing, and its kernel
abbrev added_loop : Eloop ℕ ℕ
added_loop = record {
  max = pos 1;
  count = 3;
  idle = fresh ∷ record { mask = both; read = 7; write = 7; content = 8 } ∷ fresh ∷ [];
  active = replicate 3 (0, evt_add);
}

abbrev added_kernel : Watches
added_kernel = changed (changed nothing 1 evfilt_read ev_add) 1 evfilt_write ev_add

-- The same after `eloopDeleteEvent` for reading
abbrev deleted_loop : Eloop ℕ ℕ
deleted_loop = record added_loop {
  idle = fresh ∷ record { mask = evt_write; read = 7; write = 7; content = 8 } ∷ fresh ∷ [];
}

abbrev deleted_kernel : Watches
deleted_kernel = changed added_kernel 1 evfilt_read ev_delete

-- Where the second of two filters fails, EVT_ERR leaves the first with the kernel, and the loop does
-- not know of it.
half_registered :
    Returns
      (add_event (kqueue_backend watcher) nothing (create fresh 3) 2 both 7 8)
      (λ r. (r.0 ≡ evt_err) × (r.1 2 ≡ evt_read) × (r.2 ≡ create fresh 3))
unfolding add_event create kqueue_backend at put
half_registered = (_, refl, (refl, refl, refl))
