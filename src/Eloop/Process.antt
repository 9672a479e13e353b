-- ===== src/Eloop/Process.antt =====
-- eloopPoll of the back ends and eloopProcessEvents of eloop.c. The callbacks are a parameter: one may
-- change the loop and the world `K`, which holds the kernel.
use dictionary.Base.Int.{ℤ, pos, negsuc}
use dictionary.Base.{
  ℕ, zero, suc, ◌+◌, Bool, true, false, not, ◌&&◌, ◌||◌, none, some, List, [], ◌∷◌, Run, ok, ◌>>=◌,
  at, put, length, if◌then◌else◌,
}
use dictionary.Eloop.{Mask, Eloop, Backend}

abbrev pub is_minus_one : ℤ → Bool
is_minus_one (pos m) = false
is_minus_one (negsuc zero) = true
is_minus_one (negsuc (suc m)) = false

-- The loop of `eloopPoll`: the ready descriptors go to the `active` array from place `i` on.
unfoldable pub fill : List (ℕ × Mask) → ℕ → List (ℕ × Mask) → Run (List (ℕ × Mask))
fill [] i active = ok active
fill (ready ∷ events) i active = put active i ready >>= λ active'. fill events (i + 1) active'

-- A callback at its arguments `el`, `fd`, `data` and `type`
abbrev pub Callback : Type 0 → Type 0 → Type 0 → Type 0
Callback C D K = C → K → Eloop C D → ℕ → D → Mask → Run (K × Eloop C D)

module _ {C D K : Type 0} (backend : Backend C D K) where
  -- `eloopPoll`; a failure gives EVT_ERR, which is 0.
  unfoldable pub poll : K → Eloop C D → Run (ℕ × K × Eloop C D)
  poll k el = elim (backend.wait k el.count).0 [
    | none ↦ ok (0, (backend.wait k el.count).1, el)
    | some events ↦ fill events 0 el.active >>= λ active.
        ok (length events, (backend.wait k el.count).1, record el { active = active })
  ]

module _ {C D K : Type 0} (call : Callback C D K) (same_callback : C → C → Bool) where
  -- `evtRead`, if the descriptor is registered for it, and whether it was called
  unfoldable pub fire_read : K → Eloop C D → ℕ → Mask → Run (Bool × K × Eloop C D)
  fire_read k el fd mask = do
    ev ← at el.idle fd
    if ev.mask.read && mask.read
        then (call ev.read k el fd ev.content mask >>= λ r. ok (true, r.0, r.1))
        else ok (false, k, el)

  -- `evtWrite`, unless the read callback was the same one and was called
  unfoldable pub fire_write : Bool → K → Eloop C D → ℕ → Mask → Run (K × Eloop C D)
  fire_write fired k el fd mask = do
    ev ← at el.idle fd
    if ev.mask.write && mask.write && (not fired || not (same_callback ev.read ev.write))
        then call ev.write k el fd ev.content mask
        else ok (k, el)

  -- The loop of `eloopProcessEvents`, with `n` events left from place `i` on
  unfoldable pub fire_loop : ℕ → ℕ → ℕ → K → Eloop C D → Run (ℕ × K × Eloop C D)
  fire_loop zero i processed k el = ok (processed, k, el)
  fire_loop (suc n) i processed k el = at el.active i >>= λ a. fire_read k el a.0 a.1 >>= λ r.
      fire_write r.0 r.1 r.2 a.0 a.1 >>= λ s. fire_loop n (i + 1) (processed + 1) s.0 s.1

module _ {C D K : Type 0} (backend : Backend C D K) (call : Callback C D K)
    (same_callback : C → C → Bool) where
  -- `eloopProcessEvents`
  unfoldable pub process_events : K → Eloop C D → Run (ℕ × K × Eloop C D)
  process_events k el = elim (is_minus_one el.max) [
    | true ↦ ok (0, k, el)
    | false ↦ poll backend k el >>= λ p. fire_loop call same_callback p.0 0 0 p.1 p.2
  ]
