-- ===== src/Inet/Listen.antt =====
-- _inetCreateServer and _inetAccept: the listening socket and the ones it accepts.
use dictionary.Base.Faults.{attempt}
use dictionary.Base.{
  ℕ, suc, refl, inl, inr, Bool, true, false, Option, none, some, List, [], ◌∷◌, ok, ◌>>=◌, Run,
  Returns, if◌then◌else◌,
}
use dictionary.Inet.Failure.{
  Holds, Settled, attempt-Returns, attempt-lem, choice-Returns, take_fd-Returns, close_fd-Holds,
  cleanup_after_failure_open, cleanup_after_failure-none, freeaddrinfo-Settled,
}
use dictionary.Inet.{
  Sockets, World, Family, af_unspec, inet_err, strport, bind_address, call, take_fd, close_fd,
  freeaddrinfo, set_reuse_addr, set_non_blocking, cleanup_after_failure,
}

module _ {K A : Type 0} (os : Sockets K A) where
  -- The body of the loop once there is a socket, and what follows the `break`
  unfoldable pub listen_on : Bool → ℕ → A → ℕ → World K → Run (ℕ × World K)
  unfolding set_reuse_addr set_non_blocking cleanup_after_failure freeaddrinfo
  listen_on non_block backlog a sockfd w =
      let error = cleanup_after_failure os (some sockfd) in
      let break : World K → Run (ℕ × World K) = λ w. freeaddrinfo os w >>= λ w'. ok (sockfd, w') in
      attempt (set_reuse_addr os w sockfd)
        (λ w1.
          attempt (call os w1 (λ k. os.bind k sockfd a))
            (λ w2.
              attempt (call os w2 (λ k. os.listen k sockfd backlog))
                (λ w3.
                  if non_block
                  then attempt (set_non_blocking os w3 sockfd) break error
                  else break w3)
                error)
            error)
        error

  unfoldable pub listen_each : Bool → ℕ → List A → World K → Run (ℕ × World K)
  unfolding listen_on cleanup_after_failure
  listen_each non_block backlog [] w = cleanup_after_failure os none w
  listen_each non_block backlog (a ∷ rest) w =
      let r = take_fd os w (os.socket w.kernel a) in
      elim r.0 [
        | none ↦ listen_each non_block backlog rest r.1
        | some sockfd ↦ listen_on non_block backlog a sockfd r.1
      ]

  -- `_inetCreateServer`, with `non_block` for the flag INET_NON_BLOCK
  unfoldable pub create_server :
      World K → ℕ → Option (List ℕ) → Family → ℕ → Bool → Run (ℕ × World K)
  unfolding listen_each bind_address
  create_server w port bindaddr addrfam backlog non_block =
      let r = os.getaddrinfo w.kernel (bind_address addrfam bindaddr) (strport port) addrfam true in
      elim r.0 [
        | none ↦ ok (inet_err, record w { kernel = r.1 })
        | some servinfo ↦
            listen_each non_block backlog servinfo (record w { kernel = r.1; infos = suc w.infos })
      ]

  -- `inetCreateServerBlocking` and `inetCreateServerNonBlocking`
  unfoldable pub create_server_blocking : World K → ℕ → Option (List ℕ) → ℕ → Run (ℕ × World K)
  unfolding create_server
  create_server_blocking w port bindaddr backlog =
      create_server w port bindaddr af_unspec backlog false

  unfoldable pub create_server_non_blocking : World K → ℕ → Option (List ℕ) → ℕ → Run (ℕ × World K)
  unfolding create_server
  create_server_non_blocking w port bindaddr backlog =
      create_server w port bindaddr af_unspec backlog true

  -- `_inetAccept` after the call of `accept`
  unfoldable pub accepted : Bool → Option ℕ × World K → ℕ × World K
  unfolding set_non_blocking close_fd
  accepted non_blocking (none, w) = (inet_err, w)
  accepted false (some acceptedfd, w) = (acceptedfd, w)
  accepted true (some acceptedfd, w) =
      attempt (set_non_blocking os w acceptedfd) (λ w1. (acceptedfd, w1))
        (λ w1. (inet_err, close_fd os w1 acceptedfd))

  -- `_inetAccept`
  unfoldable pub inet_accept : World K → ℕ → Bool → ℕ × World K
  unfolding accepted
  inet_accept w sockfd non_blocking =
      accepted non_blocking (take_fd os w (os.accept w.kernel sockfd))

  -- `inetAcceptBlocking` and `inetAcceptNonBlocking`
  unfoldable pub accept_blocking : World K → ℕ → ℕ × World K
  unfolding inet_accept
  accept_blocking w sockfd = inet_accept w sockfd false

  unfoldable pub accept_non_blocking : World K → ℕ → ℕ × World K
  unfolding inet_accept
  accept_non_blocking w sockfd = inet_accept w sockfd true

  finish-Settled :
      (non_block : Bool) (fd : ℕ) (w : World K) (fds : List ℕ) (n : ℕ)
      → Holds w (fd ∷ fds) (suc n)
      → Returns
          (if non_block
            then attempt
                (set_non_blocking os w fd)
                (λ w1. freeaddrinfo os w1 >>= λ w2. ok (fd, w2))
                (cleanup_after_failure os (some fd))
            else freeaddrinfo os w >>= λ w2. ok (fd, w2))
          (Settled fds n)
  unfolding set_non_blocking
  finish-Settled false fd w fds n h = freeaddrinfo-Settled os w fd fds n h
  finish-Settled true fd w fds n h =
      attempt-Returns (set_non_blocking os w fd) _ _ (fd ∷ fds) (suc n) h
        (λ w1 h1. freeaddrinfo-Settled os w1 fd fds n h1)
        (λ w1 h1. cleanup_after_failure_open os w1 fd fds n h1)

  listen_on-Settled :
      (non_block : Bool) (backlog : ℕ) (a : A) (fd : ℕ) (w : World K) (fds : List ℕ) (n : ℕ)
      → Holds w (fd ∷ fds) (suc n)
      → Returns (listen_on non_block backlog a fd w) (Settled fds n)
  unfolding listen_on set_reuse_addr
  listen_on-Settled non_block backlog a fd w fds n h =
      let error : (w' : World K)
          → Holds w' (fd ∷ fds) (suc n)
          → Returns (cleanup_after_failure os (some fd) w') (Settled fds n) =
        λ w' h'. cleanup_after_failure_open os w' fd fds n h' in
      attempt-Returns (set_reuse_addr os w fd) _ _ (fd ∷ fds) (suc n) h
        (λ w1 h1.
          attempt-Returns (call os w1 (λ k. os.bind k fd a)) _ _ (fd ∷ fds) (suc n) h1
            (λ w2 h2.
              attempt-Returns (call os w2 (λ k. os.listen k fd backlog)) _ _ (fd ∷ fds) (suc n) h2
                (λ w3 h3. finish-Settled non_block fd w3 fds n h3) error)
            error)
        error

  listen_each-Settled :
      (non_block : Bool) (backlog : ℕ) (addresses : List A) (w : World K) (fds : List ℕ) (n : ℕ)
      → Holds w fds (suc n)
      → Returns (listen_each non_block backlog addresses w) (Settled fds n)
  unfolding listen_each
  listen_each-Settled non_block backlog [] w fds n h = cleanup_after_failure-none os w fds n h
  listen_each-Settled non_block backlog (a ∷ rest) w fds n h =
      take_fd-Returns os w (os.socket w.kernel a) _ _ fds (suc n) h
        (λ w1 h1. listen_each-Settled non_block backlog rest w1 fds n h1)
        (λ fd w1 h1. listen_on-Settled non_block backlog a fd w1 fds n h1)

  -- Whatever the kernel and the resolver answer, `_inetCreateServer` returns, it has freed the
  -- address list, and either it returned INET_ERR with no descriptor left open, or exactly the one it
  -- returns is.
  pub create_server-Settled :
      (w : World K) (port : ℕ) (bindaddr : Option (List ℕ)) (addrfam : Family) (backlog : ℕ)
      (non_block : Bool)
      → Returns (create_server w port bindaddr addrfam backlog non_block) (Settled w.opened w.infos)
  unfolding create_server
  create_server-Settled w port bindaddr addrfam backlog non_block =
      let r = os.getaddrinfo w.kernel (bind_address addrfam bindaddr) (strport port) addrfam true in
      choice-Returns r (λ k. ok (inet_err, record w { kernel = k }))
        (λ servinfo k.
          listen_each non_block backlog servinfo (record w { kernel = k; infos = suc w.infos }))
        (λ e. ((inet_err, record w { kernel = r.1 }), refl, (refl, inl (refl, refl))))
        (λ servinfo e.
          listen_each-Settled non_block backlog servinfo
            (record w { kernel = r.1; infos = suc w.infos }) w.opened w.infos (refl, refl))

  accepted-Settled :
      (w : World K) (r : Option ℕ × K) (non_blocking : Bool)
      → Settled w.opened w.infos (accepted non_blocking (take_fd os w r))
  unfolding accepted set_non_blocking
  accepted-Settled w (none, k) non_blocking = (refl, inl (refl, refl))
  accepted-Settled w (some fd, k) false = (refl, inr refl)
  accepted-Settled w (some fd, k) true =
      let w' : World K = record w { kernel = k; opened = fd ∷ w.opened } in
      attempt-lem (Settled w.opened w.infos) (set_non_blocking os w' fd) _ _ (fd ∷ w.opened) w.infos
        (refl, refl) (λ w1 h1. (h1.1, inr (h1.0)))
        (λ w1 h1. let (o, i) = close_fd-Holds os w1 fd w.opened w.infos h1 in (i, inl (refl, o)))

  -- `_inetAccept` returns INET_ERR with no descriptor left open, or leaves open exactly the one it
  -- returns.
  pub inet_accept-Settled :
      (w : World K) (sockfd : ℕ) (non_blocking : Bool)
      → Settled w.opened w.infos (inet_accept w sockfd non_blocking)
  unfolding inet_accept
  inet_accept-Settled w sockfd non_blocking =
      accepted-Settled w (os.accept w.kernel sockfd) non_blocking
