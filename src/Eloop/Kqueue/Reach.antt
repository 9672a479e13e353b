-- ===== src/Eloop/Kqueue/Reach.antt =====
-- Whatever is registered and taken back on kqueue.
use dictionary.Base.{ℕ, ◌≡◌, false, ok}
use dictionary.Eloop.{Mask, is_add, Evt, Eloop, evt_ok, create, add_event, delete_event}
use dictionary.Eloop.Kqueue.{Kqueue, kqueue_backend}
use dictionary.Eloop.Kqueue.Sync.{IsKqueue, InSync}
use dictionary.Eloop.Max.{IsValid}

-- A registration that says EVT_OK, or a deletion, by `eloopAddEvent` and `eloopDeleteEvent`
pub data Step {C D K : Type 0} (kqueue : Kqueue K) : K → Eloop C D → K → Eloop C D → Type 0 where
  add :
      (k k' : K) (el el' : Eloop C D) (fd : ℕ) (mask : Mask) (cb : C) (content : D)
      → is_add mask ≡ false
      → add_event (kqueue_backend kqueue) k el fd mask cb content ≡ ok (evt_ok, k', el')
      → Step kqueue k el k' el'
  delete :
      (k k' : K) (el el' : Eloop C D) (fd : ℕ) (mask : Mask)
      → delete_event (kqueue_backend kqueue) k el fd mask ≡ ok (k', el')
      → Step kqueue k el k' el'

-- Any number of steps on a new loop for `n` descriptors, on the kernel `k0`
pub data Reach {C D K : Type 0} (kqueue : Kqueue K) (k0 : K) (fresh : Evt C D) (n : ℕ)
    : K → Eloop C D → Type 0 where
  start : Reach kqueue k0 fresh n k0 (create fresh n)
  next :
      {k k' : K} {el el' : Eloop C D}
      → Reach kqueue k0 fresh n k el
      → Step kqueue k el k' el'
      → Reach kqueue k0 fresh n k' el'

module _ {C D K : Type 0} (kqueue : Kqueue K) (watched : K → ℕ → Mask)
    (laws : IsKqueue kqueue watched) where
  abbrev Good : K → Eloop C D → Type 0
  Good k el = IsValid el × InSync watched k el
