-- ===== src/Eloop/Lifetime/Tests.antt =====
-- Loops that are made on a system that follows a script.
use dictionary.Eloop.{Evt, evt_read, create}
use dictionary.Base.{
  ℕ, ◌+◌, ◌^◌, fault, arith, ◌≡◌, refl, Bool, true, false, Option, none, some, List, [], ◌∷◌, ok,
  ◌>>=◌, Returns,
}
use dictionary.Eloop.Lifetime.{System, Held, eloop_create}
use dictionary.Eloop.Lifetime.Released.{Created, eloop_create-Created}

-- Whether the next calls succeed; past the end they do.
abbrev next_answer : List Bool → Bool × List Bool
next_answer [] = (true, [])
next_answer (b ∷ bs) = (b, bs)

abbrev seven : Bool × List Bool → Option ℕ × List Bool
seven (true, bs) = (some 7, bs)
seven (false, bs) = (none, bs)

abbrev script : System (List Bool)
script = record {
  event_size = 12;
  malloc = λ bs n. next_answer bs;
  kernel_create = λ bs. seven (next_answer bs);
  close = λ bs fd. bs;
}

abbrev fresh : Evt ℕ ℕ
fresh = record { mask = evt_read; read = 0; write = 0; content = 0 }

abbrev at_start : List Bool → Held (List Bool)
at_start bs = record { system = bs; blocks = 9 ∷ []; opened = 3 ∷ [] }

-- The kernel refuses after five blocks were found.
no_kernel :
    eloop_create script fresh (at_start (true ∷ true ∷ true ∷ true ∷ true ∷ false ∷ [])) 4
    ≡ ok (none, at_start [])
unfolding eloop_create
no_kernel = refl

no_active :
    eloop_create script fresh (at_start (true ∷ true ∷ false ∷ [])) 4 ≡ ok (none, at_start [])
unfolding eloop_create
no_active = refl

kept :
    (eloop_create script fresh (at_start []) 4 >>= λ r. ok (r.1.blocks))
    ≡ ok (4 ∷ 3 ∷ 2 ∷ 1 ∷ 0 ∷ 9 ∷ [])
unfolding eloop_create
kept = refl

eloop_create-Created_example :
    Returns
      (eloop_create script fresh (at_start []) 4)
      (Created script (create fresh 4) (9 ∷ []) (3 ∷ []))
eloop_create-Created_example = eloop_create-Created script fresh (at_start []) 4 (omega arith)

-- One event more than 2^27: the size wraps to that of one event, and the second is written outside.
oversized : eloop_create script fresh (at_start []) (2 ^ 27 + 1) ≡ fault
unfolding eloop_create
oversized = refl
