-- ===== src/Server/Start/Tests.antt =====
-- The first start of a server on a scripted kernel.
use dictionary.AoStr.Tests.{zeros}
use dictionary.Base.{ℕ, ◌+◌, ◌≡◌, refl, true, none, some, [], ◌∷◌, ok, Returns, leb, arith}
use dictionary.Database.{connect}
use dictionary.Eloop.{Backend, epoll_backend, evt_add, evt_read, Status, add_event, create}
use dictionary.Eloop.Max.{IsValid, mask_at}
use dictionary.Eloop.Register.{after_add}
use dictionary.Hmap.{Memory}
use dictionary.Hmap.Refines.{Models}
use dictionary.Inet.{World}
use dictionary.Inet.Listen.{create_server_non_blocking}
use dictionary.Inet.Tests.{Script, scripted, start}
use dictionary.Server.Cache.{key_type}
use dictionary.Server.Limit.{IsLimit, max_clients, limit_loop}
use dictionary.Eloop.Lifetime.{System, Held, eloop_create}
use dictionary.Server.Start.{DictionaryServer, Given, server_init}
use dictionary.Server.Start.Ready.{server_init-IsReady}

abbrev counting : Backend ℕ ℕ ℕ
counting =
    epoll_backend (record { epoll_ctl = λ k op fd e. (true, k + 1); epoll_wait = λ k n. (none, k) })

abbrev memory : Memory
memory = record { struct = true; table = true; entry = true }

abbrev system : Given ℕ ℕ ℕ
system = record {
  setrlimit = λ n. leb n 16;
  current = 9;
  client_memory = true;
  opened = some 1;
  fresh = record { mask = evt_read; read = 0; write = 0; content = 0 };
  made = true;
  rowcount = 0;
  tuple_memory = true;
  rows = none;
}

abbrev bound : World Script
bound = record { kernel = (6, []); opened = 5 ∷ 3 ∷ []; infos = 0 }

socket : create_server_non_blocking scripted (start []) 5050 none 500 ≡ ok (5, bound)
unfolding create_server_non_blocking
socket = refl

opened_dictionary : connect system.client_memory system.opened ≡ some 1
unfolding connect
opened_dictionary = refl

abbrev files : System ℕ
files = record {
  event_size = 12;
  malloc = λ m n. (true, m + 1);
  kernel_create = λ m. (some 7, m);
  close = λ m fd. m;
}

abbrev nothing_held : Held ℕ
nothing_held = record { system = 0; blocks = []; opened = 3 ∷ [] }

abbrev loop_held : Held ℕ
loop_held = record { system = 5; blocks = 4 ∷ 3 ∷ 2 ∷ 1 ∷ 0 ∷ []; opened = 7 ∷ 3 ∷ [] }

limit : max_clients system.setrlimit 9 ≡ some 16
unfolding max_clients limit_loop
limit = refl

looped :
    eloop_create files system.fresh nothing_held 16
    ≡ ok (some (7, create system.fresh 16), loop_held)
unfolding eloop_create create
looped = refl

server_init-IsReady_example :
    Returns
      (server_init zeros memory scripted files counting 7 0 system (start []) nothing_held 0)
      (λ r.
        (s : DictionaryServer ℕ ℕ) × (k' : ℕ) × (st : Status) × (r ≡ some (s, bound, loop_held, k'))
        × (s.sfd ≡ 5)
        × (bound.opened ≡ 5 ∷ 3 ∷ [])
        × (loop_held.opened ≡ 7 ∷ 3 ∷ [])
        × IsLimit system.setrlimit 10024 9 s.maxclients
        × Models (key_type []) (λ _. none) s.cache
        × (add_event counting 0 (create system.fresh s.maxclients) 5 evt_read 7 0
            ≡ ok (st, k', s.evtloop))
        × IsValid s.evtloop
        × ((j : ℕ) → mask_at s.evtloop.idle j ≡ after_add st 5 evt_read j evt_add))
server_init-IsReady_example =
    server_init-IsReady zeros memory scripted files counting 7 0 system (start []) bound
      nothing_held loop_held 0 5 16 7 1 (create system.fresh 16) (omega arith) refl refl
      opened_dictionary socket refl limit looped refl refl
