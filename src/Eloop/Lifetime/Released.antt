-- ===== src/Eloop/Lifetime/Released.antt =====
-- Nothing that eloopCreate gets is lost, and eloopRelease gives it back.
use dictionary.Base.Faults.{attempt}
use dictionary.Base.{
  ℕ, zero, suc, ◌*◌, ◌%◌, ◌^◌, ◌<◌, ◌≡◌, refl, ap, Bool, true, false, Option, none, some, List, ◌∷◌,
  ok, ◌>>=◌, Run, Returns, ltb, replicate, arith, if◌then◌else◌, Option-cases, inl, inr, ==_refl,
}
use Prim.Native.Nat.{◌/◌}
use dictionary.Eloop.{Evt, Eloop, evt_add, create}
use dictionary.Eloop.Lifetime.{
  events_size, set_evt_add, System, Held, el_block, idle_block, active_block, state_block,
  events_block, drop_one, malloc, free, close, kernel_state, state_create, state_release, created,
  eloop_create, eloop_release,
}

events_size-lem : (n : ℕ) → n < 2 ^ 26 → events_size n / 32 ≡ n
events_size-lem n small =
    let whole : 32 * n % 2 ^ 32 ≡ 32 * n = omega arith in
    let test : ltb (32 * n) (2 ^ 31) ≡ true = ground arith in rw (whole) (rw test (omega arith))

set_evt_add-replicate :
    {C D : Type 0} (fresh : Evt C D) (n : ℕ)
    → set_evt_add (replicate n fresh) n ≡ ok (replicate n (record fresh { mask = evt_add }))
unfolding set_evt_add
set_evt_add-replicate fresh zero = refl
set_evt_add-replicate fresh (suc n) = rw (set_evt_add-replicate fresh n, ◌>>=◌)

module _ {M : Type 0} (sys : System M) where
  abbrev pub Holds : Held M → List ℕ → List ℕ → Type 0
  Holds w blocks opened = (w.blocks ≡ blocks) × (w.opened ≡ opened)

  malloc-Returns :
      {R : Type 0} {P : R → Type 0} (w : Held M) (block size : ℕ) (next error : Held M → Run R)
      (bs fds : List ℕ)
      → Holds w bs fds
      → ((w' : Held M) → Holds w' (block ∷ bs) fds → Returns (next w') P)
      → ((w' : Held M) → Holds w' bs fds → Returns (error w') P)
      → Returns (attempt (malloc sys w block size) next error) P
  unfolding malloc
  malloc-Returns {P = P} w block size next error bs fds h good bad = go (sys.malloc w.system size)
    where
      go :
          (r : Bool × M)
          → Returns
              (attempt
                (
                  r.0,
                  record w { system = r.1; blocks = if r.0 then block ∷ w.blocks else w.blocks },
                )
                next
                error)
              P
      go (true, k) = good _ (ap (λ b. block ∷ b) (h.0), h.1)
      go (false, k) = bad _ h

  free-lem :
      (w : Held M) (block : ℕ) (bs bs' fds : List ℕ)
      → Holds w bs fds
      → drop_one block bs ≡ ok bs'
      → Returns (free sys w block) (λ w'. Holds w' bs' fds)
  unfolding free
  free-lem w block bs bs' fds h e = (record w { blocks = bs' }, rw (h.0, e) refl, (refl, h.1))

  close-lem :
      (w : Held M) (fd : ℕ) (bs fds : List ℕ)
      → Holds w bs (fd ∷ fds)
      → Returns (close sys w fd) (λ w'. Holds w' bs fds)
  unfolding close drop_one
  close-lem w fd bs fds h = (
    record w { system = sys.close w.system fd; opened = fds },
    rw (h.1) (rw (==_refl fd) refl),
    (h.0, refl),
  )

  -- What `eloopStateCreate` leaves
  abbrev StateMade : List ℕ → List ℕ → Option ℕ × Held M → Type 0
  StateMade bs fds (none, w) = Holds w bs fds
  StateMade bs fds (some kfd, w) = Holds w (events_block ∷ state_block ∷ bs) (kfd ∷ fds)

  -- What `eloopCreate` leaves: what there was, or the loop, whose release leaves what there was.
  abbrev pub Created :
      {C D : Type 0} → Eloop C D → List ℕ → List ℕ → Option (ℕ × Eloop C D) × Held M → Type 0
  Created loop bs fds (none, w) = Holds w bs fds
  Created loop bs fds (some (kfd, el), w) =
      (el ≡ loop)
      × (w.opened ≡ kfd ∷ fds)
      × Returns (eloop_release sys w kfd) (λ w'. Holds w' bs fds)

  kernel_state-StateMade :
      (w : Held M) (bs fds : List ℕ)
      → Holds w (events_block ∷ state_block ∷ bs) fds
      → Returns (kernel_state sys w) (StateMade bs fds)
  unfolding kernel_state drop_one
  kernel_state-StateMade w bs fds h =
      let r = sys.kernel_create w.system in
      elim (Option-cases r.0) [
        | inl refused ↦
            let (w1, run1, h1) =
              free-lem (record w { system = r.1 }) events_block (events_block ∷ state_block ∷ bs)
                (state_block ∷ bs) fds h refl in
            let (w2, run2, h2) = free-lem w1 state_block (state_block ∷ bs) bs fds h1 refl in
            ((none, w2), rw (kernel_state, refused) (rw (run1, ◌>>=◌) (rw (run2, ◌>>=◌))), h2)
        | inr (kfd, made) ↦ (
          (some kfd, record w { system = r.1; opened = kfd ∷ w.opened }),
          rw (kernel_state, made),
          (h.0, ap (λ o. kfd ∷ o) (h.1)),
        )
      ]

  state_create-StateMade :
      (w : Held M) (count : ℕ) (bs fds : List ℕ)
      → Holds w bs fds
      → Returns (state_create sys w count) (StateMade bs fds)
  unfolding state_create drop_one
  state_create-StateMade w count bs fds h =
      malloc-Returns w state_block _ _ _ bs fds h
        (λ w1 h1.
          malloc-Returns w1 events_block _ _ _ (state_block ∷ bs) fds h1
            (λ w2 h2. kernel_state-StateMade w2 bs fds h2)
            (λ w2 h2.
              let (w3, run, h3) = free-lem w2 state_block (state_block ∷ bs) bs fds h2 refl in
              ((none, w3), rw (run, ◌>>=◌), h3)))
        (λ w1 h1. ((none, w1), refl, h1))

  release-Holds :
      (w : Held M) (kfd : ℕ) (bs fds : List ℕ)
      → Holds w (events_block ∷ state_block ∷ active_block ∷ idle_block ∷ el_block ∷ bs) (kfd ∷ fds)
      → Returns (eloop_release sys w kfd) (λ w'. Holds w' bs fds)
  unfolding eloop_release state_release drop_one
  release-Holds w kfd bs fds h =
      let e = el_block ∷ bs in
      let (w1, r1, h1) =
        free-lem w idle_block _ (events_block ∷ state_block ∷ active_block ∷ e) (kfd ∷ fds) h
          refl in
      let (w2, r2, h2) =
        free-lem w1 active_block _ (events_block ∷ state_block ∷ e) (kfd ∷ fds) h1 refl in
      let (w3, r3, h3) = close-lem w2 kfd (events_block ∷ state_block ∷ e) fds h2 in
      let (w4, r4, h4) = free-lem w3 events_block _ (state_block ∷ e) fds h3 refl in
      let (w5, r5, h5) = free-lem w4 state_block _ e fds h4 refl in
      let (w6, r6, h6) = free-lem w5 el_block _ bs fds h5 refl in
      (
        w6,
        rw (r1, ◌>>=◌) (rw (r2, ◌>>=◌) (rw (r3, ◌>>=◌) (rw (r4, ◌>>=◌) (rw (r5, ◌>>=◌) r6)))),
        h6,
      )

  created-Created :
      {C D : Type 0} (el : Eloop C D) (r : Option ℕ × Held M) (bs fds : List ℕ)
      → StateMade (active_block ∷ idle_block ∷ el_block ∷ bs) fds r
      → Returns (created sys el r) (Created el bs fds)
  unfolding created drop_one
  created-Created el (some kfd, w) bs fds h =
      ((some (kfd, el), w), refl, (refl, h.1, release-Holds w kfd bs fds h))
  created-Created el (none, w) bs fds h =
      let (w1, r1, h1) = free-lem w el_block _ (active_block ∷ idle_block ∷ bs) fds h refl in
      let (w2, r2, h2) = free-lem w1 idle_block _ (active_block ∷ bs) fds h1 refl in
      let (w3, r3, h3) = free-lem w2 active_block _ bs fds h2 refl in
      ((none, w3), rw (r1, ◌>>=◌) (rw (r2, ◌>>=◌) (rw (r3, ◌>>=◌))), h3)

  -- Below 2^26 events, so that the size of the arrays fits an `int`, and whatever the allocator and the
  -- kernel answer, `eloopCreate` does not fault. If it returns NULL, it has freed and closed all it had
  -- got; and if it returns a loop, each of the events is EVT_ADD and `max` is -1, one descriptor is open
  -- for it, and `eloopRelease` frees each of its blocks once and closes the descriptor, without a fault.
  pub eloop_create-Created :
      {C D : Type 0} (fresh : Evt C D) (w : Held M) (eventcount : ℕ)
      → eventcount < 2 ^ 26
      → Returns
          (eloop_create sys fresh w eventcount)
          (Created (create fresh eventcount) w.blocks w.opened)
  unfolding eloop_create drop_one create
  eloop_create-Created fresh w n small =
      let bs = w.blocks in
      let fds = w.opened in
      malloc-Returns w el_block _ _ _ bs fds (refl, refl)
        (λ w1 h1.
          malloc-Returns w1 idle_block _ _ _ (el_block ∷ bs) fds h1
            (λ w2 h2.
              malloc-Returns w2 active_block _ _ _ (idle_block ∷ el_block ∷ bs) fds h2
                (λ w3 h3.
                  let (r, run, made) =
                    state_create-StateMade w3 n (active_block ∷ idle_block ∷ el_block ∷ bs) fds
                      h3 in
                  let (out, run', h') = created-Created (create fresh n) r bs fds made in
                  (
                    out,
                    rw (events_size-lem n small)
                        (rw (set_evt_add-replicate fresh n, ◌>>=◌) (rw (run, ◌>>=◌) run')),
                    h',
                  ))
                (λ w3 h3.
                  let (w4, r4, h4) = free-lem w3 el_block _ (idle_block ∷ bs) fds h3 refl in
                  let (w5, r5, h5) = free-lem w4 idle_block _ bs fds h4 refl in
                  ((none, w5), rw (r4, ◌>>=◌) (rw (r5, ◌>>=◌)), h5)))
            (λ w2 h2.
              let (w3, r3, h3) = free-lem w2 el_block _ bs fds h2 refl in
              ((none, w3), rw (r3, ◌>>=◌), h3)))
        (λ w1 h1. ((none, w1), refl, h1))
