-- ===== src/Inet.antt =====
-- inet.c: the sockets the server and the clients talk through. The kernel and the resolver are a
-- parameter; the world counts what the program holds of theirs. `true` stands for INET_OK where a
-- function only says whether it succeeded; where it returns a descriptor, INET_ERR is the number 0.
pub mod Failure
pub mod Connect
pub mod Listen
pub mod Unix
pub mod Tests
use dictionary.Base.Decimal.{decimal}
use dictionary.Base.Text.{bytes_eq}
use dictionary.Base.Int.{ℤ, pos, negsuc}
use dictionary.Base.{
  ℕ, zero, suc, ◌+◌, ◌-◌, ◌/◌, ◌%◌, Bool, true, false, Option, none, some, List, [], ◌∷◌, Run, ok,
  fault, ◌>>=◌, ltb, ◌==◌, if◌then◌else◌, length, take,
}

-- AF_INET, AF_INET6 and AF_UNSPEC
pub data Family : Type 0 where
  af_inet af_inet6 af_unspec : Family

-- The kernel's calls and the resolver's. `A` is an entry of the list that `getaddrinfo` makes, with its
-- family, type, protocol and address; the calls for AF_UNIX take the path instead.
pub record Sockets (K A : Type 0) : Type 0 where
  pub socket : K → A → Option ℕ × K
  pub socket_unix : K → Option ℕ × K
  pub close : K → ℕ → K
  pub setsockopt : K → ℕ → Bool × K
  pub fcntl_getfl : K → ℕ → ℤ × K
  pub fcntl_setfl : K → ℕ → ℤ → Bool × K
  pub connect : K → ℕ → A → Bool × K
  pub bind : K → ℕ → A → Bool × K
  pub connect_unix : K → ℕ → List ℕ → Bool × K
  pub bind_unix : K → ℕ → List ℕ → Bool × K
  pub listen : K → ℕ → ℕ → Bool × K
  pub accept : K → ℕ → Option ℕ × K
  pub unlink : K → List ℕ → Bool × K
  pub getaddrinfo : K → Option (List ℕ) → List ℕ → Family → Bool → Option (List A) × K

-- The kernel, the descriptors the program has open, the latest first, and the address lists it has yet to free.
pub record World (K : Type 0) : Type 0 where
  pub kernel : K
  pub opened : List ℕ
  pub infos : ℕ

abbrev pub inet_err : ℕ
inet_err = 0

-- `flags | O_NONBLOCK`, which is 2048, in two's complement
unfoldable pub with_nonblock : ℤ → ℤ
with_nonblock (pos n) = if n / 2048 % 2 == 1 then pos n else pos (n + 2048)
with_nonblock (negsuc n) = if n / 2048 % 2 == 1 then negsuc (n - 2048) else negsuc n

-- One descriptor fewer of that number.
unfoldable pub closed : ℕ → List ℕ → List ℕ
closed fd [] = []
closed fd (x ∷ xs) = let rest = closed fd xs in if x == fd then xs else x ∷ rest

-- `snprintf(strport, 6, "%d", port)` for a port that is not negative
abbrev pub strport : ℕ → List ℕ
strport port = take 5 (decimal port)

-- `strcpy(srv.sun_path, name)`: the path has 108 bytes, the name ends in a zero byte.
abbrev pub sun_path : List ℕ → Run (List ℕ)
sun_path name = if ltb (length name) 108 then ok name else fault

-- The address `_inetCreateServer` asks for: "*" and, for AF_INET6, "::*" mean any.
unfoldable pub bind_address : Family → Option (List ℕ) → Option (List ℕ)
unfolding bytes_eq
bind_address family none = none
bind_address family (some s) = if bytes_eq (42 ∷ []) s then none else elim family [
  | af_inet ↦ some s
  | af_inet6 ↦ if bytes_eq (58 ∷ 58 ∷ 42 ∷ []) s then none else some s
  | af_unspec ↦ some s
]

module _ {K A : Type 0} (os : Sockets K A) where
  -- A call that changes only what the kernel keeps
  abbrev pub call : World K → (K → Bool × K) → Bool × World K
  call w f = let r = f w.kernel in (r.0, record w { kernel = r.1 })

  unfoldable pub close_fd : World K → ℕ → World K
  unfolding closed
  close_fd w fd = record w { kernel = os.close w.kernel fd; opened = closed fd w.opened }

  -- A descriptor that the kernel has made
  abbrev pub take_fd : World K → Option ℕ × K → Option ℕ × World K
  take_fd w (none, k) = (none, record w { kernel = k })
  take_fd w (some fd, k) = (some fd, record w { kernel = k; opened = fd ∷ w.opened })

  -- `freeaddrinfo`, of a list that the program holds
  unfoldable pub freeaddrinfo : World K → Run (World K)
  freeaddrinfo w = elim w.infos [ zero ↦ fault | suc n ↦ ok (record w { infos = n }) ]

  -- `inetSetSocketReuseAddr`
  unfoldable pub set_reuse_addr : World K → ℕ → Bool × World K
  set_reuse_addr w sockfd = call w (λ k. os.setsockopt k sockfd)

  -- `inetSetSocketNonBlocking`; the result of F_GETFL is not looked at.
  unfoldable pub set_non_blocking : World K → ℕ → Bool × World K
  unfolding with_nonblock
  set_non_blocking w sockfd = call w (λ k.
      let flags = os.fcntl_getfl k sockfd in os.fcntl_setfl flags.1 sockfd (with_nonblock flags.0))

  -- `inetCleanupAfterFailure`; `none` is the descriptor -1.
  unfoldable pub cleanup_after_failure : Option ℕ → World K → Run (ℕ × World K)
  unfolding freeaddrinfo close_fd
  cleanup_after_failure none w = freeaddrinfo w >>= λ w'. ok (inet_err, w')
  cleanup_after_failure (some sockfd) w =
      freeaddrinfo (close_fd w sockfd) >>= λ w'. ok (inet_err, w')
