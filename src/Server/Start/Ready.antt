-- ===== src/Server/Start/Ready.antt =====
-- The server after its first start.
use dictionary.AoStr.{AoStr, Libc}
use dictionary.Database.{connect}
use dictionary.Eloop.{evt_add, evt_read, Evt, Eloop, Backend, Status, add_event, create}
use dictionary.Eloop.Max.{IsValid, mask_at, create-IsValid, mask_at-replicate}
use dictionary.Eloop.Register.{after_add, add_event-IsValid}
use dictionary.Hmap
use dictionary.Hmap.{Memory}
use dictionary.Hmap.Refines.{Models, create-Models}
use dictionary.Inet.{Sockets, World}
use dictionary.Inet.Listen.{create_server_non_blocking, create_server-Settled}
use dictionary.Server.Cache.{Key, Cache, key_type, init_dictionary}
use dictionary.Server.Limit.{max_clients, IsLimit, max_clients-IsLimit}
use dictionary.Server.Start.{DictionaryServer, Given, Started, listen_loop, start_loop, server_init}
use dictionary.Eloop.Lifetime.{System, Held, eloop_create}
use dictionary.Eloop.Lifetime.Released.{eloop_create-Created}
use dictionary.Base.{
  ◌<◌, ◌^◌, ℕ, ◌≤◌, ◌≡◌, refl, ap, ◌∙◌, inl, inr, true, false, none, some, [], ◌∷◌, ok, ◌>>=◌,
  Returns, ◌==◌, arith,
}
use dictionary.Inet.{af_unspec}

listening :
    {A L : Type 0} (os : Sockets L A) (w w' : World L) (sfd : ℕ)
    → create_server_non_blocking os w 5050 none 500 ≡ ok (sfd, w')
    → (sfd == 0) ≡ false
    → w'.opened ≡ sfd ∷ w.opened
unfolding create_server_non_blocking
listening os w w' sfd socket valid =
    let (r, run, (_, settled)) = create_server-Settled os w 5050 none af_unspec 500 true in
    let same : r ≡ (sfd, w') = cc in
    elim (rw same at settled) [ inl (err, _) ↦ absurd (ground arith) | inr o ↦ o ]

made_loop :
    {C D M : Type 0} (sys : System M) (fresh : Evt C D) (held held' : Held M) (n kfd : ℕ)
    (el : Eloop C D)
    → n < 2 ^ 26
    → eloop_create sys fresh held n ≡ ok (some (kfd, el), held')
    → (el ≡ create fresh n) × (held'.opened ≡ kfd ∷ held.opened)
made_loop sys fresh held held' n kfd el small looped =
    let (r, run, made) = eloop_create-Created sys fresh held n small in
    let same : r ≡ (some (kfd, el), held') = cc in let is = rw same at made in (is.0, is.1)

module _ (libc : Libc) (mem : Memory) {S A C D K L M : Type 0} (os : Sockets L A) (sys : System M)
    (backend : Backend C D K) (accept : C) (null : D) where
  empty_dictionary :
      (given : Given S C D) (cache : Cache)
      → given.made ≡ true
      → given.rowcount ≡ 0
      → init_dictionary libc mem given.made given.rowcount given.tuple_memory given.rows cache
        ≡ ok (some cache)
  unfolding init_dictionary
  empty_dictionary given cache made empty = simp (made, empty)

  start_run :
      (given : Given S C D) (w : World L) (held held' : Held M) (k k' : K) (sfd maxclients kfd : ℕ)
      (cache : Cache) (st : Status) (el el' : Eloop C D)
      → eloop_create sys given.fresh held maxclients ≡ ok (some (kfd, el), held')
      → add_event backend k el sfd evt_read accept null ≡ ok (st, k', el')
      → init_dictionary libc mem given.made given.rowcount given.tuple_memory given.rows cache
        ≡ ok (some cache)
      → start_loop libc mem os sys backend accept null given w held k sfd maxclients cache
        ≡ ok (
            some (
              record {
                sfd = sfd;
                maxclients = maxclients;
                clientcount = 0;
                cache = cache;
                evtloop = el';
              },
              w,
              held',
              k',
            ))
  unfolding start_loop listen_loop
  start_run given w held held' k k' sfd maxclients kfd cache st el el' looped added filled =
      rw (looped, ◌>>=◌) (rw (added, ◌>>=◌) (rw (filled, ◌>>=◌)))

  init_run :
      (given : Given S C D) (w w' : World L) (held : Held M) (k : K) (sfd maxclients : ℕ)
      (cache : Cache) (db : S) (r : Started C D K L M)
      → max_clients given.setrlimit given.current ≡ some maxclients
      → Hmap.create {K = Key} {V = AoStr} mem ≡ some cache
      → connect given.client_memory given.opened ≡ some db
      → create_server_non_blocking os w 5050 none 500 ≡ ok (sfd, w')
      → (sfd == 0) ≡ false
      → start_loop libc mem os sys backend accept null given w' held k sfd maxclients cache ≡ ok r
      → server_init libc mem os sys backend accept null given w held k ≡ ok r
  unfolding server_init
  init_run given w w' held k sfd maxclients cache db r limit table opened socket valid run =
      simp (server_init, limit, table, opened, socket, valid, run, ◌>>=◌)

  limited :
      (given : Given S C D) (n : ℕ)
      → 4 ≤ given.current
      → max_clients given.setrlimit given.current ≡ some n
      → IsLimit given.setrlimit 10024 given.current n
  limited given n few limit =
      let (t, found, is) = max_clients-IsLimit given.setrlimit given.current few in
      let same : t ≡ n = cc in rw same at is

  -- A first start, where at least four descriptors are allowed, the table for the cache, the database,
  -- a socket that is not the number 0 and a loop for the number of clients that
  -- `serverSetFileDescriptorLimit` sets can be had, and the dictionary is empty: `serverInit` does not
  -- fault and does not end the program. Of sockets, the listening one more is open, and of the loop's
  -- descriptors, the one that `eloopCreate` gets; the limit on clients is as
  -- `serverSetFileDescriptorLimit` finds it, the cache is well formed and holds nothing, the loop is a
  -- new one for that many clients to which `eloopAddEvent` was asked to add the socket for reading, with
  -- `max` its highest registered descriptor, and the socket is registered for reading if `eloopAddEvent`
  -- said EVT_OK; if not, nothing is registered and the server starts all the same.
  pub server_init-IsReady :
      (given : Given S C D) (w w' : World L) (held held' : Held M) (k : K) (sfd maxclients kfd : ℕ)
      (db : S) (el : Eloop C D)
      → 4 ≤ given.current
      → mem.struct ≡ true
      → mem.table ≡ true
      → connect given.client_memory given.opened ≡ some db
      → create_server_non_blocking os w 5050 none 500 ≡ ok (sfd, w')
      → (sfd == 0) ≡ false
      → max_clients given.setrlimit given.current ≡ some maxclients
      → eloop_create sys given.fresh held maxclients ≡ ok (some (kfd, el), held')
      → given.made ≡ true
      → given.rowcount ≡ 0
      → Returns (server_init libc mem os sys backend accept null given w held k) (λ r.
        (s : DictionaryServer C D) × (k' : K) × (st : Status) × (r ≡ some (s, w', held', k'))
        × (s.sfd ≡ sfd)
        × (w'.opened ≡ sfd ∷ w.opened)
        × (held'.opened ≡ kfd ∷ held.opened)
        × IsLimit given.setrlimit 10024 given.current s.maxclients
        × Models (key_type []) (λ _. none) s.cache
        × (add_event backend k (create given.fresh s.maxclients) sfd evt_read accept null
            ≡ ok (st, k', s.evtloop))
        × IsValid s.evtloop
        × ((j : ℕ) → mask_at s.evtloop.idle j ≡ after_add st sfd evt_read j evt_add))
  unfolding create
  server_init-IsReady given w w' held held' k sfd maxclients kfd db el few struct table opened
        socket valid limit looped made empty =
      let is_limit = limited given maxclients few limit in
      let below : maxclients < 2 ^ 26 = omega (arith, is_limit.steps.1) in
      let (loop, kernel) = made_loop sys given.fresh held held' maxclients kfd el below looped in
      let (cache, new, models) = create-Models (key_type []) mem struct table in
      let ((st, k', el'), added, (busy, masks)) =
        add_event-IsValid backend k (create given.fresh maxclients) sfd evt_read accept null refl
          (create-IsValid given.fresh maxclients) in
      let none_before : (j : ℕ) → mask_at (create given.fresh maxclients).idle j ≡ evt_add =
        λ j. mask_at-replicate maxclients (record given.fresh { mask = evt_add }) j refl in
      let run =
        start_run given w' held held' k k' sfd maxclients kfd cache st
          (create given.fresh maxclients) el' (rw loop at looped) added
          (empty_dictionary given cache made empty) in
      (
        _,
        init_run given w w' held k sfd maxclients cache db _ limit new opened socket valid run,
        (
          record {
            sfd = sfd;
            maxclients = maxclients;
            clientcount = 0;
            cache = cache;
            evtloop = el';
          },
          k',
          st,
          refl,
          refl,
          listening os w w' sfd socket valid,
          kernel,
          is_limit,
          models,
          added,
          busy,
          λ j. masks j ∙ ap (after_add st sfd evt_read j) (none_before j),
        ),
      )
