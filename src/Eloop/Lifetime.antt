-- ===== src/Eloop/Lifetime.antt =====
-- eloopCreate and eloopRelease of eloop.c, with what they hold of memory and of the kernel, and
-- eloopStateCreate and eloopStateRelease, which epoll_loop.c and kevent_loop.c write alike. The
-- allocator and the kernel are a parameter.
pub mod Released
pub mod Tests
use Prim.Native.Nat.{◌/◌}
use dictionary.Base.Faults.{attempt}
use dictionary.Base.Int.{negsuc}
use dictionary.Eloop.{Evt, Eloop, evt_add}
use dictionary.Base.{
  ℕ, zero, suc, ◌+◌, ◌-◌, ◌*◌, ◌%◌, ◌^◌, Bool, true, false, Option, none, some, List, [], ◌∷◌, ok,
  fault, ◌>>=◌, Run, ◌==◌, ltb, replicate, if◌then◌else◌,
}

-- `malloc` is asked for a number of bytes and tells whether it finds them; `event_size` is the size of
-- an event of the kernel; `kernel_create` is `epoll_create` or `kqueue`.
pub record System (M : Type 0) : Type 0 where
  pub event_size : ℕ
  pub malloc : M → ℕ → Bool × M
  pub kernel_create : M → Option ℕ × M
  pub close : M → ℕ → M

-- The system, the blocks that the program has yet to free, and the descriptors it has open, the latest
-- first.
pub record Held (M : Type 0) : Type 0 where
  pub system : M
  pub blocks : List ℕ
  pub opened : List ℕ

-- The blocks, by the variables that hold them
abbrev pub el_block : ℕ
el_block = 0

abbrev pub idle_block : ℕ
idle_block = 1

abbrev pub active_block : ℕ
active_block = 2

abbrev pub state_block : ℕ
state_block = 3

abbrev pub events_block : ℕ
events_block = 4

-- The list without the latest `x`; there has to be one.
unfoldable pub drop_one : ℕ → List ℕ → Run (List ℕ)
drop_one x [] = fault
drop_one x (y ∷ ys) =
    let rest = drop_one x ys in if y == x then ok ys else rest >>= λ zs. ok (y ∷ zs)

-- `eventssize`, sizeof(evt) being 32, as an `int` and then converted to `size_t` for `malloc`
abbrev pub events_size : ℕ → ℕ
events_size eventcount =
    let bytes = 32 * eventcount % 2 ^ 32 in
    if ltb bytes (2 ^ 31) then bytes else bytes + (2 ^ 64 - 2 ^ 32)

-- `_eloopSetEvtAdd` on what is left of the array
unfoldable pub set_evt_add :
    {C D : Type 0} → List (Evt C D) → (eventcount : ℕ) → Run (List (Evt C D))
set_evt_add evs zero = ok evs
set_evt_add [] (suc n) = fault
set_evt_add (ev ∷ evs) (suc n) =
    set_evt_add evs n >>= λ rest. ok (record ev { mask = evt_add } ∷ rest)

module _ {M : Type 0} (sys : System M) where
  unfoldable pub malloc : Held M → (block size : ℕ) → Bool × Held M
  malloc w block size =
      let r = sys.malloc w.system size in
      (r.0, record w { system = r.1; blocks = if r.0 then block ∷ w.blocks else w.blocks })

  -- `free`, of a block that is not free
  unfoldable pub free : Held M → ℕ → Run (Held M)
  unfolding drop_one
  free w block = drop_one block w.blocks >>= λ blocks. ok (record w { blocks = blocks })

  -- `close`, of a descriptor that is open
  unfoldable pub close : Held M → ℕ → Run (Held M)
  unfolding drop_one
  close w fd = drop_one fd w.opened >>= λ opened.
      ok (record w { system = sys.close w.system fd; opened = opened })

  -- `eloopStateCreate` once both blocks are there
  unfoldable pub kernel_state : Held M → Run (Option ℕ × Held M)
  unfolding free
  kernel_state w =
      let r = sys.kernel_create w.system in
      elim r.0 [
        | none ↦ do
          w1 ← free (record w { system = r.1 }) events_block
          w2 ← free w1 state_block
          ok (none, w2)
        | some kfd ↦ ok (some kfd, record w { system = r.1; opened = kfd ∷ w.opened })
      ]

  -- `eloopStateCreate`, with the kernel's descriptor for EVT_OK and nothing for EVT_ERR
  unfoldable pub state_create : Held M → (count : ℕ) → Run (Option ℕ × Held M)
  unfolding malloc free kernel_state
  state_create w count =
      attempt (malloc w state_block 16)
        (λ w1.
          attempt (malloc w1 events_block (sys.event_size * count % 2 ^ 64)) kernel_state
            (λ w2. free w2 state_block >>= λ w3. ok (none, w3)))
        (λ w1. ok (none, w1))

  -- `eloopStateRelease`
  unfoldable pub state_release : Held M → ℕ → Run (Held M)
  unfolding free close
  state_release w kfd = do w1 ← close w kfd; w2 ← free w1 events_block; free w2 state_block

  -- The end of `eloopCreate`, on what `eloopStateCreate` returns
  unfoldable pub created :
      {C D : Type 0} → Eloop C D → Option ℕ × Held M → Run (Option (ℕ × Eloop C D) × Held M)
  unfolding free
  created el (some kfd, w) = ok (some (kfd, el), w)
  created el (none, w) = do
    w1 ← free w el_block
    w2 ← free w1 idle_block
    w3 ← free w2 active_block
    ok (none, w3)

  -- `eloopCreate`, with the kernel's descriptor and the new loop, and nothing for NULL; `fresh` is what
  -- `malloc` left in an `evt`.
  unfoldable pub eloop_create :
      {C D : Type 0} → Evt C D → Held M → (eventcount : ℕ) → Run (Option (ℕ × Eloop C D) × Held M)
  unfolding malloc free state_create created set_evt_add
  eloop_create fresh w eventcount =
      let size = events_size eventcount in
      attempt (malloc w el_block 32)
        (λ w1.
          attempt (malloc w1 idle_block size)
            (λ w2.
              attempt (malloc w2 active_block size)
                (λ w3. set_evt_add (replicate (size / 32) fresh) eventcount >>= λ idle.
                  state_create w3 eventcount >>= λ r.
                  created
                    (record {
                      max = negsuc 0;
                      count = eventcount;
                      idle = idle;
                      active = replicate (size / 32) (0, evt_add);
                    })
                    r)
                (λ w3. do w4 ← free w3 el_block; w5 ← free w4 idle_block; ok (none, w5)))
            (λ w2. free w2 el_block >>= λ w3. ok (none, w3)))
        (λ w1. ok (none, w1))

  -- `eloopRelease`
  unfoldable pub eloop_release : Held M → ℕ → Run (Held M)
  unfolding free state_release
  eloop_release w kfd = do
    w1 ← free w idle_block
    w2 ← free w1 active_block
    w3 ← state_release w2 kfd
    free w3 el_block
