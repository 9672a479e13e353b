-- ===== src/Inet/Tests.antt =====
-- Runs of inet.c on a kernel that follows a script.
use dictionary.Base.{
  ℕ, ◌+◌, ◌≡◌, refl, Bool, true, false, Option, none, some, List, [], ◌∷◌, ok, fault, Returns,
  replicate, arith,
}
use dictionary.Base.Int.{pos, negsuc}
use dictionary.Inet.Failure.{Settled}
use dictionary.Inet.Connect.{Connected, inet_connect, inet_connect-Connected}
use dictionary.Inet.Listen.{
  create_server, create_server_non_blocking, create_server-Settled, accept_non_blocking,
}
use dictionary.Inet.Unix.{
  create_unix_server_socket, create_unix_client_socket, create_unix_socket-Settled,
}
use dictionary.Inet.{Sockets, World, af_inet6, af_unspec, bind_address, with_nonblock}

-- The next descriptor, and whether the next calls succeed; past the end they do.
abbrev pub Script : Type 0
Script = ℕ × List Bool

abbrev answer : Script → Bool × Script
answer (n, []) = (true, (n, []))
answer (n, b ∷ bs) = (b, (n, bs))

abbrev given : Bool × Script → Option ℕ × Script
given (false, k) = (none, k)
given (true, (n, bs)) = (some n, (n + 1, bs))

abbrev found : Bool × Script → Option (List ℕ) × Script
found (false, k) = (none, k)
found (true, k) = (some (1 ∷ 2 ∷ []), k)

abbrev pub scripted : Sockets Script ℕ
scripted = record {
  socket = λ k a. given (answer k);
  socket_unix = λ k. given (answer k);
  close = λ k fd. k;
  setsockopt = λ k fd. answer k;
  fcntl_getfl = λ k fd. (pos 2, k);
  fcntl_setfl = λ k fd flags. answer k;
  connect = λ k fd a. answer k;
  bind = λ k fd a. answer k;
  connect_unix = λ k fd path. answer k;
  bind_unix = λ k fd path. answer k;
  listen = λ k fd backlog. answer k;
  accept = λ k fd. given (answer k);
  unlink = λ k path. answer k;
  getaddrinfo = λ k host port family passive. found (answer k);
}

abbrev pub start : List Bool → World Script
start bs = record { kernel = (5, bs); opened = 3 ∷ []; infos = 0 }

abbrev at_end : List ℕ → ℕ → ℕ → World Script
at_end fds infos n = record { kernel = (n, []); opened = fds; infos = infos }

connect_second :
    inet_connect scripted (start (true ∷ false ∷ [])) none 5051 false
    ≡ ok (5, at_end (5 ∷ 3 ∷ []) 0 6)
unfolding inet_connect
connect_second = refl

connect_refused :
    inet_connect scripted (start (true ∷ true ∷ false ∷ [])) none 5051 false
    ≡ ok (0, at_end (3 ∷ []) 0 6)
unfolding inet_connect
connect_refused = refl

-- F_SETFL fails: INET_ERR, with the socket open and the address list not freed.
connect_leak :
    inet_connect scripted (start (true ∷ true ∷ true ∷ true ∷ false ∷ [])) none 5051 true
    ≡ ok (0, at_end (5 ∷ 3 ∷ []) 1 6)
unfolding inet_connect
connect_leak = refl

serve :
    create_server_non_blocking scripted (start []) 5051 none 10 ≡ ok (5, at_end (5 ∷ 3 ∷ []) 0 6)
unfolding create_server_non_blocking
serve = refl

-- F_SETFL fails, and here the socket is closed.
serve_failure :
    create_server_non_blocking scripted
      (start (true ∷ true ∷ true ∷ true ∷ true ∷ false ∷ []))
      5051
      none
      10
    ≡ ok (0, at_end (3 ∷ []) 0 6)
unfolding create_server_non_blocking
serve_failure = refl

any_address : bind_address af_inet6 (some (58 ∷ 58 ∷ 42 ∷ [])) ≡ none
unfolding bind_address
any_address = refl

flags_of_error : with_nonblock (negsuc 0) ≡ negsuc 0
unfolding with_nonblock
flags_of_error = refl

accept_failure :
    accept_non_blocking scripted (start (true ∷ false ∷ [])) 4 ≡ (0, at_end (3 ∷ []) 0 6)
unfolding accept_non_blocking
accept_failure = refl

-- The path does not exist yet, so `unlink` fails and so does the whole.
unix_first_time :
    create_unix_server_socket scripted (start (true ∷ false ∷ [])) (47 ∷ 115 ∷ []) 10
    ≡ ok (0, at_end (3 ∷ []) 0 6)
unfolding create_unix_server_socket
unix_first_time = refl

unix_long_path : create_unix_client_socket scripted (start []) (replicate 108 97) ≡ fault
unfolding create_unix_client_socket
unix_long_path = refl

inet_connect-Connected_example :
    Returns
      (inet_connect scripted (start (true ∷ false ∷ [])) none 5051 true)
      (Connected true (3 ∷ []) 0)
inet_connect-Connected_example =
    inet_connect-Connected scripted (start (true ∷ false ∷ [])) none 5051 true

create_server-Settled_example :
    Returns
      (create_server scripted (start (true ∷ true ∷ false ∷ [])) 5051 none af_unspec 10 true)
      (Settled (3 ∷ []) 0)
create_server-Settled_example =
    create_server-Settled scripted (start (true ∷ true ∷ false ∷ [])) 5051 none af_unspec 10 true

create_unix_socket-Settled_example :
    Returns (create_unix_server_socket scripted (start []) (47 ∷ 115 ∷ []) 10) (Settled (3 ∷ []) 0)
    × Returns (create_unix_client_socket scripted (start []) (47 ∷ 115 ∷ [])) (Settled (3 ∷ []) 0)
create_unix_socket-Settled_example =
    create_unix_socket-Settled scripted (start []) (47 ∷ 115 ∷ []) 10 (omega arith)
