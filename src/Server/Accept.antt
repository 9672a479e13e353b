-- ===== src/Server/Accept.antt =====
-- serverAccept, on the event loop of eloop.c.
use dictionary.Base.{
  ℕ, ◌+◌, ◌^◌, ◌<◌, ◌≡◌, refl, ap, ◌∙◌, ◌⊎◌, inl, inr, false, true, Option, none, some, ◌∷◌, Run,
  ok, fault, ◌>>=◌, Returns, ltb, ◌==◌, eq_of_==, Bool-cases, if◌then◌else◌, arith,
}
use dictionary.Inet.Listen.{accept_non_blocking, inet_accept-Settled}
use dictionary.Inet.{Sockets, World, inet_err}
use dictionary.Eloop.{Mask, is_add, Eloop, Backend, Status, evt_err, evt_ok, add_event}
use dictionary.Eloop.Max.{IsValid, mask_at}
use dictionary.Eloop.Register.{after_add, add_event-IsValid}

-- `server.clientcount++` on an `int`, after the result of `eloopAddEvent`
unfoldable pub count_client : Status → ℕ → Run ℕ
count_client evt_err clients = ok clients
count_client evt_ok clients = if ltb (clients + 1) (2 ^ 31) then ok (clients + 1) else fault

-- The count after a registration that says `st`
abbrev pub counted : Status → ℕ → ℕ
counted evt_err clients = clients
counted evt_ok clients = clients + 1

count_client-counted :
    (st : Status) (clients : ℕ)
    → clients + 1 < 2 ^ 31
    → count_client st clients ≡ ok (counted st clients)
unfolding count_client
count_client-counted evt_err clients h = refl
count_client-counted evt_ok clients h =
    let e : ltb (clients + 1) (2 ^ 31) ≡ true = ground arith in rw e

module _ {C D K : Type 0} (backend : Backend C D K) (reply : C) (null : D) where
  -- `serverAccept`, from what `inetAcceptNonBlocking` returned: nothing for INET_ERR. `reply` stands for
  -- `serverSendClientReply` and `null` for NULL; the result is `clientcount`, the kernel and the loop.
  unfoldable pub accept : Option ℕ → ℕ → K → Eloop C D → Mask → Run (ℕ × K × Eloop C D)
  unfolding count_client
  accept none clients k el mask = ok (clients, k, el)
  accept (some sockfd) clients k el mask = add_event backend k el sockfd mask reply null >>= λ r.
      count_client r.0 clients >>= λ clients'. ok (clients', r.1, r.2)

  -- Below 2^31 - 1 clients, with a mask that has a flag, on a loop whose `max` is the highest
  -- registered descriptor, `serverAccept` on a new socket does not fault and keeps that; it counts
  -- one more client if the socket was registered with the mask, and changes neither the count nor
  -- the flags otherwise.
  accept-IsValid :
      (sockfd clients : ℕ) (k : K) (el : Eloop C D) (mask : Mask)
      → clients + 1 < 2 ^ 31
      → is_add mask ≡ false
      → IsValid el
      → Returns (accept (some sockfd) clients k el mask) (λ r.
        IsValid r.2
        × ((st : Status) × (r.0 ≡ counted st clients)
            × ((j : ℕ) → mask_at r.2.idle j ≡ after_add st sockfd mask j (mask_at el.idle j))))
  unfolding accept
  accept-IsValid sockfd clients k el mask h busy is =
      let (r, added, (is', flags)) =
        add_event-IsValid backend k el sockfd mask reply null busy is in
      (
        (counted r.0 clients, r.1, r.2),
        rw (added, ◌>>=◌) (rw (count_client-counted r.0 clients h, ◌>>=◌)),
        (is', (r.0, refl, flags)),
      )

-- What `sockfd` says: nothing for INET_ERR
abbrev pub not_err : ℕ → Option ℕ
not_err sockfd = if sockfd == inet_err then none else some sockfd

module _ {A C D K L : Type 0} (os : Sockets L A) (backend : Backend C D K) (reply : C)
    (null : D) where
  -- `serverAccept` on the listening socket `fd`
  unfoldable pub accept_connection :
      World L → ℕ → ℕ → K → Eloop C D → Mask → Run (World L × (ℕ × K × Eloop C D))
  unfolding accept
  accept_connection w fd clients k el mask =
      let r = accept_non_blocking os w fd in
      accept backend reply null (not_err r.0) clients k el mask >>= λ s. ok (r.1, s)

  -- The socket is open and its registration says `st`.
  abbrev pub Accepted : World L → ℕ → Eloop C D → Mask → World L × (ℕ × K × Eloop C D) → Type 0
  Accepted w clients el mask r =
      IsValid r.1.2
      × ((sockfd : ℕ) × (r.0.opened ≡ sockfd ∷ w.opened)
          × ((st : Status) × (r.1.0 ≡ counted st clients)
              × ((j : ℕ) → mask_at r.1.2.idle j ≡ after_add st sockfd mask j (mask_at el.idle j))))

  accept_run :
      (w : World L) (fd clients : ℕ) (k : K) (el : Eloop C D) (mask : Mask) (s : ℕ × K × Eloop C D)
      → (accept_non_blocking os w fd).0 == inet_err ≡ false
      → accept backend reply null (some (accept_non_blocking os w fd).0) clients k el mask ≡ ok s
      → accept_connection w fd clients k el mask ≡ ok ((accept_non_blocking os w fd).1, s)
  unfolding accept_connection
  accept_run w fd clients k el mask s e run = rw e (rw (run, ◌>>=◌))

  accept_refused :
      (w : World L) (fd clients : ℕ) (k : K) (el : Eloop C D) (mask : Mask)
      → (accept_non_blocking os w fd).0 == inet_err ≡ true
      → accept_connection w fd clients k el mask
        ≡ ok ((accept_non_blocking os w fd).1, (clients, k, el))
  unfolding accept_connection accept
  accept_refused w fd clients k el mask e = rw e refl

  refused_open :
      (w : World L) (fd : ℕ)
      → (accept_non_blocking os w fd).0 == inet_err ≡ true
      → ((accept_non_blocking os w fd).1.opened ≡ w.opened)
        ⊎ ((accept_non_blocking os w fd).1.opened ≡ 0 ∷ w.opened)
  unfolding accept_non_blocking
  refused_open w fd e = elim (inet_accept-Settled os w fd true).1 [
    | inl (err, o) ↦ inl o
    | inr o ↦ inr (o ∙ ap (λ n. n ∷ w.opened) (eq_of_== _ _ e))
  ]

  accepted_open :
      (w : World L) (fd : ℕ)
      → (accept_non_blocking os w fd).0 == inet_err ≡ false
      → (accept_non_blocking os w fd).1.opened ≡ (accept_non_blocking os w fd).0 ∷ w.opened
  unfolding accept_non_blocking
  accepted_open w fd e = elim (inet_accept-Settled os w fd true).1 [
    | inl (err, o) ↦ absurd (ground arith)
    | inr o ↦ o
  ]

  -- Below 2^31 - 1 clients, with a mask that has a flag, on a loop whose `max` is the highest
  -- registered descriptor, and whatever the kernel answers, `serverAccept` does not fault. Either it
  -- changes neither the count nor the loop, and leaves no descriptor open but possibly the number 0,
  -- which it takes for INET_ERR; or it leaves one new socket open and `max` the highest: one more
  -- client is counted if the socket was registered with the mask, and otherwise neither the count nor
  -- the flags change.
  pub accept_connection-Accepted :
      (w : World L) (fd clients : ℕ) (k : K) (el : Eloop C D) (mask : Mask)
      → clients + 1 < 2 ^ 31
      → is_add mask ≡ false
      → IsValid el
      → Returns (accept_connection w fd clients k el mask) (λ r.
        ((r.1 ≡ (clients, k, el)) × ((r.0.opened ≡ w.opened) ⊎ (r.0.opened ≡ 0 ∷ w.opened)))
        ⊎ Accepted w clients el mask r)
  accept_connection-Accepted w fd clients k el mask h busy is =
      let r = accept_non_blocking os w fd in
      elim (Bool-cases (r.0 == inet_err)) [
        | inl e ↦ (
          (r.1, (clients, k, el)),
          accept_refused w fd clients k el mask e,
          inl (refl, refused_open w fd e),
        )
        | inr e ↦
            let (s, run, (is', st)) =
              accept-IsValid backend reply null r.0 clients k el mask h busy is in
            (
              (r.1, s),
              accept_run w fd clients k el mask s e run,
              inr (is', (r.0, accepted_open w fd e, st)),
            )
      ]
