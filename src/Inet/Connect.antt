-- ===== src/Inet/Connect.antt =====
-- inetConnect: the first address for which a socket can be made.
use dictionary.Base.Faults.{attempt}
use dictionary.Base.{
  ℕ, suc, ◌≡◌, refl, ◌⊎◌, inl, inr, Bool, true, false, Option, none, some, List, [], ◌∷◌, ok, ◌>>=◌,
  Run, Returns, if◌then◌else◌,
}
use dictionary.Inet.Failure.{
  Holds, Settled, attempt-Returns, choice-Returns, take_fd-Returns, cleanup_after_failure_open,
  cleanup_after_failure-none, freeaddrinfo-Settled,
}
use dictionary.Inet.{
  Sockets, World, af_inet, inet_err, strport, call, take_fd, freeaddrinfo, set_reuse_addr,
  set_non_blocking, cleanup_after_failure,
}

-- What the loop may leave: with the flag it can also fail with a socket and the list still there.
abbrev pub Connected : {K : Type 0} → Bool → List ℕ → ℕ → ℕ × World K → Type 0
Connected non_block fds n r =
    Settled fds n r
    ⊎ ((non_block ≡ true)
        × (r.0 ≡ inet_err)
        × (r.1.infos ≡ suc n)
        × ((fd : ℕ) × (r.1.opened ≡ fd ∷ fds)))

module _ {K A : Type 0} (os : Sockets K A) where
  -- The body of the loop once there is a socket, and what follows the `break`
  unfoldable pub connect_on : Bool → A → ℕ → World K → Run (ℕ × World K)
  unfolding set_reuse_addr set_non_blocking cleanup_after_failure freeaddrinfo
  connect_on non_block a sockfd w =
      let error = cleanup_after_failure os (some sockfd) in
      let break : World K → Run (ℕ × World K) = λ w. freeaddrinfo os w >>= λ w'. ok (sockfd, w') in
      attempt (call os w (λ k. os.connect k sockfd a))
        (λ w1.
          attempt (set_reuse_addr os w1 sockfd)
            (λ w2.
              if non_block
              then attempt (set_non_blocking os w2 sockfd) break (λ w3. ok (inet_err, w3))
              else break w2)
            error)
        error

  -- The loop over the addresses, and what follows it
  unfoldable pub connect_each : Bool → List A → World K → Run (ℕ × World K)
  unfolding connect_on cleanup_after_failure
  connect_each non_block [] w = cleanup_after_failure os none w
  connect_each non_block (a ∷ rest) w =
      let r = take_fd os w (os.socket w.kernel a) in
      elim r.0 [
        | none ↦ connect_each non_block rest r.1
        | some sockfd ↦ connect_on non_block a sockfd r.1
      ]

  -- `inetConnect`, with `non_block` for the flag INET_NON_BLOCK
  unfoldable pub inet_connect : World K → Option (List ℕ) → ℕ → Bool → Run (ℕ × World K)
  unfolding connect_each
  inet_connect w addr port non_block =
      let r = os.getaddrinfo w.kernel addr (strport port) af_inet false in
      elim r.0 [
        | none ↦ ok (inet_err, record w { kernel = r.1 })
        | some servinfo ↦
            connect_each non_block servinfo (record w { kernel = r.1; infos = suc w.infos })
      ]

  widen :
      (non_block : Bool) (fds : List ℕ) (n : ℕ) (run : Run (ℕ × World K))
      → Returns run (Settled fds n)
      → Returns run (Connected non_block fds n)
  widen non_block fds n run (r, e, s) = (r, e, inl s)

  -- After the socket is connected: the flag, the end of the list, and the two ways out
  finish-Connected :
      (non_block : Bool) (fd : ℕ) (w : World K) (fds : List ℕ) (n : ℕ)
      → Holds w (fd ∷ fds) (suc n)
      → Returns
          (if non_block
            then attempt
                (set_non_blocking os w fd)
                (λ w1. freeaddrinfo os w1 >>= λ w2. ok (fd, w2))
                (λ w1. ok (inet_err, w1))
            else freeaddrinfo os w >>= λ w2. ok (fd, w2))
          (Connected non_block fds n)
  unfolding set_non_blocking
  finish-Connected false fd w fds n h = widen false fds n _ (freeaddrinfo-Settled os w fd fds n h)
  finish-Connected true fd w fds n h =
      attempt-Returns (set_non_blocking os w fd) _ _ (fd ∷ fds) (suc n) h
        (λ w1 h1. widen true fds n _ (freeaddrinfo-Settled os w1 fd fds n h1))
        (λ w1 h1. ((inet_err, w1), refl, inr (refl, refl, h1.1, (fd, h1.0))))

  connect_on-Connected :
      (non_block : Bool) (a : A) (fd : ℕ) (w : World K) (fds : List ℕ) (n : ℕ)
      → Holds w (fd ∷ fds) (suc n)
      → Returns (connect_on non_block a fd w) (Connected non_block fds n)
  unfolding connect_on set_reuse_addr
  connect_on-Connected non_block a fd w fds n h =
      let error : (w' : World K)
          → Holds w' (fd ∷ fds) (suc n)
          → Returns (cleanup_after_failure os (some fd) w') (Connected non_block fds n) =
        λ w' h'. widen non_block fds n _ (cleanup_after_failure_open os w' fd fds n h') in
      attempt-Returns (call os w (λ k. os.connect k fd a)) _ _ (fd ∷ fds) (suc n) h
        (λ w1 h1.
          attempt-Returns (set_reuse_addr os w1 fd) _ _ (fd ∷ fds) (suc n) h1
            (λ w2 h2. finish-Connected non_block fd w2 fds n h2) error)
        error

  connect_each-Connected :
      (non_block : Bool) (addresses : List A) (w : World K) (fds : List ℕ) (n : ℕ)
      → Holds w fds (suc n)
      → Returns (connect_each non_block addresses w) (Connected non_block fds n)
  unfolding connect_each
  connect_each-Connected non_block [] w fds n h =
      widen non_block fds n _ (cleanup_after_failure-none os w fds n h)
  connect_each-Connected non_block (a ∷ rest) w fds n h =
      take_fd-Returns os w (os.socket w.kernel a) _ _ fds (suc n) h
        (λ w1 h1. connect_each-Connected non_block rest w1 fds n h1)
        (λ fd w1 h1. connect_on-Connected non_block a fd w1 fds n h1)

  -- Whatever the kernel and the resolver answer, `inetConnect` returns, and it has freed the address
  -- list and either returned INET_ERR with no descriptor left open, or left open exactly the one it
  -- returns. The one exception needs the flag INET_NON_BLOCK: it then can return INET_ERR with a
  -- socket open and the list not freed.
  pub inet_connect-Connected :
      (w : World K) (addr : Option (List ℕ)) (port : ℕ) (non_block : Bool)
      → Returns (inet_connect w addr port non_block) (Connected non_block w.opened w.infos)
  unfolding inet_connect
  inet_connect-Connected w addr port non_block =
      let r = os.getaddrinfo w.kernel addr (strport port) af_inet false in
      choice-Returns r (λ k. ok (inet_err, record w { kernel = k }))
        (λ servinfo k.
          connect_each non_block servinfo (record w { kernel = k; infos = suc w.infos }))
        (λ e. ((inet_err, record w { kernel = r.1 }), refl, inl (refl, inl (refl, refl))))
        (λ servinfo e.
          connect_each-Connected non_block servinfo (record w { kernel = r.1; infos = suc w.infos })
            w.opened w.infos (refl, refl))
