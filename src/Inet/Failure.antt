-- ===== src/Inet/Failure.antt =====
-- What the program holds of the kernel while a function of inet.c runs.
use mathlib.Core.Option.{some-injective}
use dictionary.Base.Faults.{attempt}
use dictionary.Base.{
  ℕ, suc, ◌≡◌, refl, ap, ◌∙◌, ◌⊎◌, inl, inr, Bool, true, false, Option, none, some, List, ◌∷◌, ok,
  ◌>>=◌, Run, Returns, ==_refl,
}
use dictionary.Inet.{
  Sockets, World, inet_err, closed, take_fd, close_fd, freeaddrinfo, cleanup_after_failure,
}

-- These descriptors are open, and so many address lists are to be freed.
abbrev pub Holds : {K : Type 0} → World K → List ℕ → ℕ → Type 0
Holds w fds infos = (w.opened ≡ fds) × (w.infos ≡ infos)

-- The function failed and left nothing open, or the descriptor it returns is all that it left open.
abbrev pub Settled : {K : Type 0} → List ℕ → ℕ → ℕ × World K → Type 0
Settled fds infos r =
    (r.1.infos ≡ infos) × (((r.0 ≡ inet_err) × (r.1.opened ≡ fds)) ⊎ (r.1.opened ≡ r.0 ∷ fds))

pub closed_first : (fd : ℕ) (fds : List ℕ) → closed fd (fd ∷ fds) ≡ fds
unfolding closed
closed_first fd fds = rw (==_refl fd) refl

-- A call between two points of a function: what holds before it, holds in both branches.
pub attempt-Returns {ℓ} :
    {K : Type 0} {R : Type 0} {P : R → Type ℓ} (r : Bool × World K) (next error : World K → Run R)
    (fds : List ℕ) (n : ℕ)
    → Holds r.1 fds n
    → ((w : World K) → Holds w fds n → Returns (next w) P)
    → ((w : World K) → Holds w fds n → Returns (error w) P)
    → Returns (attempt r next error) P
attempt-Returns (true, w) next error fds n h good bad = good w h
attempt-Returns (false, w) next error fds n h good bad = bad w h

-- The same where what follows does not fault.
pub attempt-lem {ℓ} :
    {K : Type 0} {R : Type 0} (P : R → Type ℓ) (r : Bool × World K) (next error : World K → R)
    (fds : List ℕ) (n : ℕ)
    → Holds r.1 fds n
    → ((w : World K) → Holds w fds n → P (next w))
    → ((w : World K) → Holds w fds n → P (error w))
    → P (attempt r next error)
attempt-lem P (true, w) next error fds n h good bad = good w h
attempt-lem P (false, w) next error fds n h good bad = bad w h

-- A call that may have a result
pub choice-Returns {ℓ} :
    {X Y R : Type 0} {P : R → Type ℓ} (r : Option X × Y) (bad : Y → Run R) (good : X → Y → Run R)
    → (r.0 ≡ none → Returns (bad r.1) P)
    → ((x : X) → r.0 ≡ some x → Returns (good x r.1) P)
    → Returns (elim r.0 [ none ↦ bad r.1 | some x ↦ good x r.1 ]) P
choice-Returns (none, y) bad good b g = b refl
choice-Returns (some x, y) bad good b g = g x refl

module _ {K A : Type 0} (os : Sockets K A) where
  pub close_fd-Holds :
      (w : World K) (fd : ℕ) (fds : List ℕ) (n : ℕ)
      → Holds w (fd ∷ fds) n
      → Holds (close_fd os w fd) fds n
  unfolding close_fd
  close_fd-Holds w fd fds n h = (ap (closed fd) h.0 ∙ closed_first fd fds, h.1)

  pub freeaddrinfo-Holds :
      (w : World K) (fds : List ℕ) (n : ℕ)
      → Holds w fds (suc n)
      → Returns (freeaddrinfo os w) (λ w'. Holds w' fds n)
  unfolding freeaddrinfo
  freeaddrinfo-Holds w fds n h = (record w { infos = n }, rw (h.1) refl, (h.0, refl))

  -- The list is freed and the socket, where there is one, closed.
  pub cleanup_after_failure_open :
      (w : World K) (fd : ℕ) (fds : List ℕ) (n : ℕ)
      → Holds w (fd ∷ fds) (suc n)
      → Returns (cleanup_after_failure os (some fd) w) (Settled fds n)
  unfolding cleanup_after_failure
  cleanup_after_failure_open w fd fds n h =
      let (w', run, (o, i)) =
        freeaddrinfo-Holds (close_fd os w fd) fds n (close_fd-Holds w fd fds (suc n) h) in
      ((inet_err, w'), rw (run, ◌>>=◌), (i, inl (refl, o)))

  pub cleanup_after_failure-none :
      (w : World K) (fds : List ℕ) (n : ℕ)
      → Holds w fds (suc n)
      → Returns (cleanup_after_failure os none w) (Settled fds n)
  unfolding cleanup_after_failure
  cleanup_after_failure-none w fds n h =
      let (w', run, (o, i)) = freeaddrinfo-Holds w fds n h in
      ((inet_err, w'), rw (run, ◌>>=◌), (i, inl (refl, o)))

  -- The end of a function that succeeds: the list is freed, the descriptor returned.
  pub freeaddrinfo-Settled :
      (w : World K) (fd : ℕ) (fds : List ℕ) (n : ℕ)
      → Holds w (fd ∷ fds) (suc n)
      → Returns (freeaddrinfo os w >>= λ w'. ok (fd, w')) (Settled fds n)
  freeaddrinfo-Settled w fd fds n h =
      let (w', run, (o, i)) = freeaddrinfo-Holds w (fd ∷ fds) n h in
      ((fd, w'), rw (run, ◌>>=◌), (i, inr o))

  pub take_fd-none :
      (w : World K) (r : Option ℕ × K)
      → (take_fd os w r).0 ≡ none
      → Holds (take_fd os w r).1 w.opened w.infos
  take_fd-none w (none, k) e = (refl, refl)
  take_fd-none w (some fd, k) e = cc

  pub take_fd-some :
      (w : World K) (r : Option ℕ × K) (fd : ℕ)
      → (take_fd os w r).0 ≡ some fd
      → Holds (take_fd os w r).1 (fd ∷ w.opened) w.infos
  take_fd-some w (none, k) fd e = cc
  take_fd-some w (some x, k) fd e = (ap (λ y. y ∷ w.opened) (some-injective x fd e), refl)

  -- The loop's `continue`, and its body
  pub take_fd-Returns {ℓ} :
      {R : Type 0} {P : R → Type ℓ} (w : World K) (r : Option ℕ × K) (bad : World K → Run R)
      (good : ℕ → World K → Run R) (fds : List ℕ) (n : ℕ)
      → Holds w fds n
      → ((w' : World K) → Holds w' fds n → Returns (bad w') P)
      → ((fd : ℕ) (w' : World K) → Holds w' (fd ∷ fds) n → Returns (good fd w') P)
      → Returns (let t = take_fd os w r in elim t.0 [ none ↦ bad t.1 | some fd ↦ good fd t.1 ]) P
  take_fd-Returns w r bad good fds n h b g =
      choice-Returns (take_fd os w r) bad good
        (λ e. b (take_fd os w r).1 (let (o, i) = take_fd-none w r e in (o ∙ h.0, i ∙ h.1)))
        (λ fd e.
          g fd (take_fd os w r).1
            (let (o, i) = take_fd-some w r fd e in (o ∙ ap (λ y. fd ∷ y) (h.0), i ∙ h.1)))
