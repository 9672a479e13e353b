-- ===== src/Server/Start.antt =====
-- serverInit of server.c: the parts of the server, made one after the other.
pub mod Ready
pub mod Tests
use dictionary.AoStr.{AoStr, Libc}
use dictionary.Database.{Row, connect}
use dictionary.Eloop.{Mask, evt_add, evt_read, Evt, Eloop, Backend, Status, add_event}
use dictionary.Eloop.Lifetime.{System, Held, eloop_create}
use dictionary.Eloop.Max.{IsValid, mask_at, create-IsValid, mask_at-replicate}
use dictionary.Eloop.Register.{after_add, add_event-IsValid}
use dictionary.Hmap.{Hmap, Memory}
use dictionary.Hmap
use dictionary.Inet.{Sockets, World}
use dictionary.Inet.Listen.{create_server_non_blocking}
use dictionary.Server.Cache.{Key, Cache, init_dictionary}
use dictionary.Server.Limit.{max_clients, IsLimit, max_clients-IsLimit}
use dictionary.Base.{
  ℕ, ◌≤◌, ◌≡◌, refl, Bool, true, false, not, Option, none, some, List, Run, ok, fault, ◌>>=◌,
  Returns, ◌==◌, if◌then◌else◌,
}

-- `dictionaryServer`, less the process and the database
pub record DictionaryServer (C D : Type 0) : Type 0 where
  pub sfd : ℕ
  pub maxclients : ℕ
  pub clientcount : ℕ
  pub cache : Cache
  pub evtloop : Eloop C D

-- What the system gives `serverInit`: the limits on descriptors, the database, with what it answers to
-- the statements of `serverInitDictionary`, and what memory for an event of the loop holds at first.
pub record Given (S C D : Type 0) : Type 0 where
  pub setrlimit : ℕ → Bool
  pub current : ℕ
  pub client_memory : Bool
  pub opened : Option S
  pub fresh : Evt C D
  pub made : Bool
  pub rowcount : ℕ
  pub tuple_memory : Bool
  pub rows : Option (List Row)

-- What a started server stands on: the sockets, what the loop holds of memory and descriptors, and the
-- kernel behind the loop.
abbrev pub Started : (C D K L M : Type 0) → Type 0
Started C D K L M = Option (DictionaryServer C D × World L × Held M × K)

module _ (libc : Libc) (mem : Memory) {S A C D K L M : Type 0} (os : Sockets L A) (sys : System M)
    (backend : Backend C D K) (accept : C) (null : D) where
  -- The end of `serverInit`, once the loop is there. What `eloopAddEvent` says is not looked at.
  unfoldable pub listen_loop :
      Given S C D
      → World L
      → Held M
      → K
      → (sfd maxclients : ℕ) → Cache
      → Eloop C D
      → Run (Started C D K L M)
  listen_loop given w held k sfd maxclients cache el =
      add_event backend k el sfd evt_read accept null >>= λ (st, k', el').
      init_dictionary libc mem given.made given.rowcount given.tuple_memory given.rows cache
      >>= λ filled. elim filled [
        | none ↦ ok none
        | some cache' ↦ ok (
            some (
              record {
                sfd = sfd;
                maxclients = maxclients;
                clientcount = 0;
                cache = cache';
                evtloop = el';
              },
              w,
              held,
              k',
            ))
      ]

  -- The end of `serverInit`, once the socket is there
  unfoldable pub start_loop :
      Given S C D → World L → Held M → K → (sfd maxclients : ℕ) → Cache → Run (Started C D K L M)
  unfolding listen_loop
  start_loop given w held k sfd maxclients cache =
      eloop_create sys given.fresh held maxclients >>= λ (made, held'). elim made [
        | none ↦ ok none
        | some (kfd, el) ↦ listen_loop given w held' k sfd maxclients cache el
      ]

  -- `serverInit`; nothing where it ends the program.
  unfoldable pub server_init : Given S C D → World L → Held M → K → Run (Started C D K L M)
  unfolding start_loop
  server_init given w held k = elim (max_clients given.setrlimit given.current) [
    | none ↦ fault
    | some maxclients ↦ elim (Hmap.create {K = Key} {V = AoStr} mem) [
      | none ↦ ok none
      | some cache ↦ elim (connect given.client_memory given.opened) [
        | none ↦ ok none
        | some db ↦ create_server_non_blocking os w 5050 none 500 >>= λ (sfd, w').
            if sfd == 0 then ok none else start_loop given w' held k sfd maxclients cache
      ]
    ]
  ]
