-- ===== src/Eloop/Tests.antt =====
-- A kernel that notes the requests it gets, and runs of the event loop on it.
use mathlib.Core.Option.{some-injective}
use dictionary.Base.Int.{pos, negsuc, above}
use dictionary.Base.{
  false, length, replicate, ◌≤◌, arith, ℕ, ◌≡◌, refl, true, List, [], ◌∷◌, ok, ◌>>=◌, Returns, some,
  if◌then◌else◌, at, put, ◌==◌, zero, suc, sym,
}
use dictionary.Eloop.{
  Mask, epoll_backend, evt_add, is_add, without, evt_read, Evt, Eloop, Epoll, Events, Op, ctl_add,
  ctl_mod, create, state_delete, add_event, delete_event, scan, lower_max,
}
use dictionary.Eloop.Max.{pos-injective, create-IsValid, IsValid, mask_at}
use dictionary.Eloop.Process.{
  Callback, process_events, poll, fill, fire_loop, fire_read, fire_write,
}
use dictionary.Eloop.Round.{IsBelow, IsSized, process_events-IsSized}
use dictionary.Eloop.Register.{add_event-IsValid, delete_event-IsValid, delete_request, after_add}

abbrev noting : Epoll (List (Op × ℕ))
noting = record { epoll_ctl = λ k op fd e. (true, (op, fd) ∷ k); epoll_wait = λ k n. (some [], k) }

abbrev fresh : Evt ℕ ℕ
fresh = record { mask = evt_read; read = 0; write = 0; content = 0 }

abbrev three : Eloop ℕ ℕ
three = create fresh 3

three-IsValid : IsValid three
three-IsValid = create-IsValid fresh 3

-- The loop with one readable descriptor.
abbrev opened : Eloop ℕ ℕ
opened = record {
  max = pos 1;
  count = 3;
  idle = record fresh { mask = evt_add } ∷ fresh ∷ record fresh { mask = evt_add } ∷ [];
  active = [];
}

opened-IsValid : IsValid opened
opened-IsValid = record {
  width = refl;
  max = record { quiet = quiet; top = λ m e. rw (sym (pos-injective 1 m e)) };
}
  where
    quiet : (j : ℕ) → above j (pos 1) ≡ true → is_add (mask_at opened.idle j) ≡ true
    quiet zero a = cc
    quiet (suc zero) a = cc
    quiet (suc (suc zero)) a = refl
    quiet (suc (suc (suc j))) a = refl

-- Adding to a registered descriptor asks epoll to modify it.
add_then_mod :
    (add_event (epoll_backend noting) [] three 1 evt_read 7 8 >>= λ r.
    add_event (epoll_backend noting) r.1 r.2 1 evt_read 7 9 >>= λ r'. ok r'.1)
    ≡ ok ((ctl_mod, 1) ∷ (ctl_add, 1) ∷ [])
unfolding add_event create epoll_backend at put
add_then_mod = refl

-- Deleting the only event lowers `max` to -1.
delete_last :
    (delete_event (epoll_backend noting) [] opened 1 evt_read >>= λ r. ok r.1.max) ≡ ok (negsuc 0)
unfolding delete_event lower_max scan epoll_backend at put
delete_last = refl

add_event-IsValid_example : Returns (add_event (epoll_backend noting) [] three 1 evt_read 7 8) (λ r.
    IsValid r.2
    × ((j : ℕ) → mask_at r.2.idle j ≡ after_add r.0 1 evt_read j (mask_at three.idle j)))
add_event-IsValid_example =
    add_event-IsValid (epoll_backend noting) [] three 1 evt_read 7 8 refl three-IsValid

delete_event-IsValid_example :
    Returns (delete_event (epoll_backend noting) [] opened 1 evt_read) (λ r.
      IsValid r.1
      × ((j : ℕ)
          → mask_at r.1.idle j
            ≡ (if 1 == j then without (mask_at opened.idle j) evt_read else mask_at opened.idle j)))
delete_event-IsValid_example =
    delete_event-IsValid (epoll_backend noting) [] opened 1 evt_read opened-IsValid

delete_request_example : state_delete noting [] fresh 1 evt_read ≡ (ctl_add, 1) ∷ []
delete_request_example = delete_request noting [] fresh 1 evt_read refl

-- A kernel with one readable descriptor, and a callback that notes it.
abbrev readable : List (ℕ × Events)
readable = (1, record { epollin = true; epollout = false; epollerr = false; epollhup = false }) ∷ []

abbrev ringing : Epoll (List (Op × ℕ))
ringing = record noting { epoll_wait = λ k n. (some readable, k) }

abbrev answer : Callback ℕ ℕ (List (Op × ℕ))
answer c k el fd content mask = ok ((ctl_mod, fd) ∷ k, el)

abbrev waiting : Eloop ℕ ℕ
waiting = record opened { active = replicate 3 (0, evt_add) }

ringing-waits :
    (k : List (Op × ℕ)) (events : List (ℕ × Mask))
    → ((epoll_backend {C = ℕ} {D = ℕ} ringing).wait k 3).0 ≡ some events
    → (length events ≤ 3) × IsBelow 3 events
unfolding epoll_backend
ringing-waits k events e = rw (sym (some-injective _ _ e)) (omega arith, (omega arith, tt))

answered :
    (process_events (epoll_backend ringing) answer ◌==◌ [] waiting >>= λ r. ok r.1)
    ≡ ok ((ctl_mod, 1) ∷ [])
unfolding epoll_backend process_events poll fill fire_loop fire_read fire_write at put
answered = refl

process_events-IsSized_example :
    Returns
      (process_events (epoll_backend ringing) answer ◌==◌ [] waiting)
      (λ r. (r.0 ≡ 1) × IsSized 3 r.2)
unfolding epoll_backend
process_events-IsSized_example =
    process_events-IsSized (epoll_backend ringing) answer ◌==◌ 3 ringing-waits
      (λ c k el fd content mask is. (((ctl_mod, fd) ∷ k, el), refl, is)) [] waiting
      (record {
        count = refl;
        idle = refl;
        active = refl;
        below = (omega arith, (omega arith, (omega arith, tt)));
      })
