-- ===== src/Inet/Unix.antt =====
-- inetCreateUnixServerSocket and inetCreateUnixClientSocket.
use dictionary.Base.Faults.{attempt}
use dictionary.Base.{
  ℕ, ◌<◌, ◌≡◌, refl, inl, inr, true, Option, none, some, List, ◌∷◌, ok, ◌>>=◌, Run, Returns, ltb,
  length, arith,
}
use dictionary.Inet.Failure.{Holds, Settled, attempt-lem, close_fd-Holds}
use dictionary.Inet.{Sockets, World, inet_err, sun_path, call, take_fd, close_fd, set_reuse_addr}

module _ {K A : Type 0} (os : Sockets K A) where
  -- The label `error` with a socket
  abbrev failed : ℕ → World K → ℕ × World K
  failed sockfd w = (inet_err, close_fd os w sockfd)

  -- `inetCreateUnixServerSocket` after the call of `socket`
  unfoldable pub serve_path : List ℕ → ℕ → Option ℕ × World K → ℕ × World K
  unfolding set_reuse_addr close_fd
  serve_path path backlog (none, w) = (inet_err, w)
  serve_path path backlog (some sockfd, w) =
      attempt (call os w (λ k. os.unlink k path))
        (λ w1.
          attempt (call os w1 (λ k. os.bind_unix k sockfd path))
            (λ w2.
              attempt (call os w2 (λ k. os.listen k sockfd backlog))
                (λ w3. attempt (set_reuse_addr os w3 sockfd) (λ w4. (sockfd, w4)) (failed sockfd))
                (failed sockfd))
            (failed sockfd))
        (failed sockfd)

  -- `inetCreateUnixServerSocket`
  unfoldable pub create_unix_server_socket : World K → List ℕ → ℕ → Run (ℕ × World K)
  unfolding serve_path
  create_unix_server_socket w name backlog = sun_path name >>= λ path.
      ok (serve_path path backlog (take_fd os w (os.socket_unix w.kernel)))

  -- `inetCreateUnixClientSocket` after the call of `socket`
  unfoldable pub connect_path : List ℕ → Option ℕ × World K → Run (ℕ × World K)
  unfolding close_fd
  connect_path name (none, w) = ok (inet_err, w)
  connect_path name (some sockfd, w) = sun_path name >>= λ path. ok (
      attempt (call os w (λ k. os.connect_unix k sockfd path)) (λ w1. (sockfd, w1)) (failed sockfd))

  -- `inetCreateUnixClientSocket`
  unfoldable pub create_unix_client_socket : World K → List ℕ → Run (ℕ × World K)
  unfolding connect_path
  create_unix_client_socket w name = connect_path name (take_fd os w (os.socket_unix w.kernel))

  failed-Settled :
      (w : World K) (fd : ℕ) (fds : List ℕ) (n : ℕ)
      → Holds w (fd ∷ fds) n
      → Settled fds n (failed fd w)
  failed-Settled w fd fds n h = let (o, i) = close_fd-Holds os w fd fds n h in (i, inl (refl, o))

  serve_path-Settled :
      (path : List ℕ) (backlog : ℕ) (w : World K) (r : Option ℕ × K)
      → Settled w.opened w.infos (serve_path path backlog (take_fd os w r))
  unfolding serve_path set_reuse_addr
  serve_path-Settled path backlog w (none, k) = (refl, inl (refl, refl))
  serve_path-Settled path backlog w (some fd, k) =
      let fds = fd ∷ w.opened in
      let n = w.infos in
      let w0 : World K = record w { kernel = k; opened = fds } in
      let P = Settled w.opened n in
      let error : (w' : World K) → Holds w' fds n → P (failed fd w') =
        λ w' h'. failed-Settled w' fd w.opened n h' in
      attempt-lem P (call os w0 (λ k. os.unlink k path)) _ _ fds n (refl, refl)
        (λ w1 h1.
          attempt-lem P (call os w1 (λ k. os.bind_unix k fd path)) _ _ fds n h1
            (λ w2 h2.
              attempt-lem P (call os w2 (λ k. os.listen k fd backlog)) _ _ fds n h2
                (λ w3 h3.
                  attempt-lem P (set_reuse_addr os w3 fd) _ _ fds n h3 (λ w4 h4. (h4.1, inr (h4.0)))
                    error)
                error)
            error)
        error

  connect_path-Settled :
      (name : List ℕ) (w : World K) (r : Option ℕ × K)
      → length name < 108
      → Returns (connect_path name (take_fd os w r)) (Settled w.opened w.infos)
  unfolding connect_path
  connect_path-Settled name w (none, k) short =
      ((inet_err, record w { kernel = k }), refl, (refl, inl (refl, refl)))
  connect_path-Settled name w (some fd, k) short =
      let e : ltb (length name) 108 ≡ true = ground arith in
      let fds = fd ∷ w.opened in
      let w0 : World K = record w { kernel = k; opened = fds } in
      rw e (
        _,
        refl,
        attempt-lem (Settled w.opened w.infos) (call os w0 (λ k. os.connect_unix k fd name)) _ _ fds
            w.infos (refl, refl) (λ w1 h1. (h1.1, inr (h1.0)))
            (λ w1 h1. failed-Settled w1 fd w.opened w.infos h1),
      )

  -- For a path below 108 bytes, whatever the kernel answers, neither function for AF_UNIX faults: it
  -- returns INET_ERR with no descriptor left open, or leaves open exactly the one it returns.
  pub create_unix_socket-Settled :
      (w : World K) (name : List ℕ) (backlog : ℕ)
      → length name < 108
      → Returns (create_unix_server_socket w name backlog) (Settled w.opened w.infos)
        × Returns (create_unix_client_socket w name) (Settled w.opened w.infos)
  unfolding create_unix_server_socket create_unix_client_socket
  create_unix_socket-Settled w name backlog short =
      let e : ltb (length name) 108 ≡ true = ground arith in
      (
        rw e (_, refl, serve_path-Settled name backlog w (os.socket_unix w.kernel)),
        connect_path-Settled name w (os.socket_unix w.kernel) short,
      )
