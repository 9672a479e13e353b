-- ===== src/Eloop/Round.antt =====
-- One round of eloopProcessEvents, whatever the callbacks do within an invariant.
use dictionary.Base.{
  ℕ, zero, suc, ◌+◌, ◌≤◌, ◌<◌, ◌≡◌, refl, ◌∙◌, Bool, true, false, not, ◌&&◌, ◌||◌, Option, none,
  some, List, [], ◌∷◌, ok, ◌>>=◌, Returns, at, put-set, set, length, length-set, if◌then◌else◌,
  Bool-cases, Option-cases, inl, inr, All, arith,
}
use dictionary.Eloop.{Mask, Eloop, Backend}
use dictionary.Eloop.Process.{
  Callback, fill, poll, fire_read, fire_write, fire_loop, process_events, is_minus_one,
}

-- Entries that name a descriptor below `n`.
abbrev pub IsBelow {ℓ} : {A : Type ℓ} → ℕ → List (ℕ × A) → Type 0
IsBelow n xs = All (λ x. x.0 < n) xs

IsBelow-set :
    (n : ℕ) (xs : List (ℕ × Mask)) (i fd : ℕ) (mask : Mask)
    → fd < n
    → IsBelow n xs
    → IsBelow n (set xs i (fd, mask))
IsBelow-set n [] i fd mask h a = tt
IsBelow-set n (x ∷ xs) zero fd mask h a = (h, a.1)
IsBelow-set n (x ∷ xs) (suc i) fd mask h a = (a.0, IsBelow-set n xs i fd mask h a.1)

-- The events fit into the array, which keeps its length.
fill-IsBelow :
    (n : ℕ) (events : List (ℕ × Mask)) (i : ℕ) (active : List (ℕ × Mask))
    → i + length events ≤ length active
    → IsBelow n events
    → IsBelow n active
    → Returns (fill events i active) (λ a. (length a ≡ length active) × IsBelow n a)
unfolding fill
fill-IsBelow n [] i active h e a = (active, refl, (refl, a))
fill-IsBelow n ((fd, mask) ∷ events) i active h e a =
    let active' = set active i (fd, mask) in
    let len = length-set active i (fd, mask) in
    let (b, run, (size, below)) =
      fill-IsBelow n events (i + 1) active' (omega (arith, len)) e.1
        (IsBelow-set n active i fd mask e.0 a) in
    (b, rw (put-set active i (fd, mask) (omega arith), ◌>>=◌) run, (size ∙ len, below))

at-IsBelow :
    (n : ℕ) (xs : List (ℕ × Mask)) (i : ℕ)
    → i < length xs
    → IsBelow n xs
    → (a : ℕ × Mask) × (at xs i ≡ ok a) × (a.0 < n)
unfolding at
at-IsBelow n [] i h b = absurd (omega arith)
at-IsBelow n (x ∷ xs) zero h b = (x, refl, b.0)
at-IsBelow n (x ∷ xs) (suc i) h b = at-IsBelow n xs i (omega arith) b.1

at-any {ℓ} : {A : Type ℓ} (xs : List A) (i : ℕ) → i < length xs → (a : A) × (at xs i ≡ ok a)
unfolding at
at-any [] i h = absurd (omega arith)
at-any (x ∷ xs) zero h = (x, refl)
at-any (x ∷ xs) (suc i) h = at-any xs i (omega arith)

-- A loop for descriptors below `n`: both arrays have that length, and the active entries stay inside.
pub record IsSized {C D : Type 0} (n : ℕ) (el : Eloop C D) : Type 0 where
  pub count : el.count ≡ n
  pub idle : length el.idle ≡ n
  pub active : length el.active ≡ n
  pub below : IsBelow n el.active

-- How many descriptors a wait reports.
abbrev pub ready_count : Option (List (ℕ × Mask)) → ℕ
ready_count none = 0
ready_count (some events) = length events

module _ {C D K : Type 0} (backend : Backend C D K) (call : Callback C D K)
    (same_callback : C → C → Bool) (n : ℕ)
    (waits : (k : K) (events : List (ℕ × Mask))
      → (backend.wait k n).0 ≡ some events
      → (length events ≤ n) × IsBelow n events)
    (calls : (c : C) (k : K) (el : Eloop C D) (fd : ℕ) (content : D) (mask : Mask)
      → IsSized n el
      → Returns (call c k el fd content mask) (λ r. IsSized n r.1)) where
  fire_read-IsSized :
      (k : K) (el : Eloop C D) (fd : ℕ) (mask : Mask)
      → fd < n
      → IsSized n el
      → Returns (fire_read call same_callback k el fd mask) (λ r. IsSized n r.2)
  unfolding fire_read
  fire_read-IsSized k el fd mask h is =
      let size = is.idle in
      let (ev, read) = at-any el.idle fd (omega arith) in
      elim (Bool-cases (ev.mask.read && mask.read)) [
        | inr idle ↦ ((false, k, el), rw (read, ◌>>=◌) (rw idle), is)
        | inl ready ↦
            let (r, run, is') = calls ev.read k el fd ev.content mask is in
            ((true, r.0, r.1), rw (read, ◌>>=◌) (rw ready (rw (run, ◌>>=◌))), is')
      ]

  fire_write-IsSized :
      (fired : Bool) (k : K) (el : Eloop C D) (fd : ℕ) (mask : Mask)
      → fd < n
      → IsSized n el
      → Returns (fire_write call same_callback fired k el fd mask) (λ r. IsSized n r.1)
  unfolding fire_write
  fire_write-IsSized fired k el fd mask h is =
      let size = is.idle in
      let (ev, read) = at-any el.idle fd (omega arith) in
      elim (Bool-cases
        (ev.mask.write && mask.write && (not fired || not (same_callback ev.read ev.write)))) [
          | inr idle ↦ ((k, el), rw (read, ◌>>=◌) (rw idle), is)
          | inl ready ↦
              let (r, run, is') = calls ev.write k el fd ev.content mask is in
              (r, rw (read, ◌>>=◌) (rw ready run), is')
        ]

  fire_loop-IsSized :
      (m i processed : ℕ) (k : K) (el : Eloop C D)
      → i + m ≤ n
      → IsSized n el
      → Returns
          (fire_loop call same_callback m i processed k el)
          (λ r. (r.0 ≡ processed + m) × IsSized n r.2)
  unfolding fire_loop
  fire_loop-IsSized zero i processed k el h is = ((processed, k, el), refl, (omega arith, is))
  fire_loop-IsSized (suc m) i processed k el h is =
      let size = is.active in
      let (a, read, inside) = at-IsBelow n el.active i (omega arith) is.below in
      let (r, first, is1) = fire_read-IsSized k el a.0 a.1 inside is in
      let (s, second, is2) = fire_write-IsSized r.0 r.1 r.2 a.0 a.1 inside is1 in
      let (t, rest, (count, is3)) =
        fire_loop-IsSized m (i + 1) (processed + 1) s.0 s.1 (omega arith) is2 in
      (
        t,
        rw (read, ◌>>=◌) (rw (first, ◌>>=◌) (rw (second, ◌>>=◌) rest)),
        (omega (arith, count), is3),
      )

  poll-IsSized :
      (k : K) (el : Eloop C D)
      → IsSized n el
      → Returns
          (poll backend k el)
          (λ r. (r.0 ≡ ready_count (backend.wait k n).0) × (r.0 ≤ n) × IsSized n r.2)
  unfolding poll
  poll-IsSized k el is = elim (Option-cases (backend.wait k n).0) [
    | inl failed ↦
        ((0, (backend.wait k n).1, el), simp (poll, is.count, failed), (rw failed, omega arith, is))
    | inr (events, ready) ↦
        let (fits, inside) = waits k events ready in
        let size = is.active in
        let (active, run, (len, below)) =
          fill-IsBelow n events 0 el.active (omega arith) inside is.below in
        (
          (length events, (backend.wait k n).1, record el { active = active }),
          simp (poll, is.count, ready, run, ◌>>=◌),
          (
            rw ready,
            fits,
            record { count = is.count; idle = is.idle; active = len ∙ is.active; below = below },
          ),
        )
  ]

  -- Where the wait fills at most the places it is given, with descriptors below `n`, and a
  -- callback on a loop with arrays of length `n` and active descriptors below `n` returns and leaves
  -- such a loop, a round of `eloopProcessEvents` does not fault and leaves such a loop; it says 0
  -- if nothing is registered, and otherwise how many descriptors were ready, 0 if the wait failed.
  pub process_events-IsSized :
      (k : K) (el : Eloop C D)
      → IsSized n el
      → Returns (process_events backend call same_callback k el) (λ r.
        (r.0 ≡ (if is_minus_one el.max then 0 else ready_count (backend.wait k n).0))
        × IsSized n r.2)
  unfolding process_events
  process_events-IsSized k el is = elim (Bool-cases (is_minus_one el.max)) [
    | inl empty ↦ ((0, k, el), simp (process_events, empty), (simp empty, is))
    | inr busy ↦
        let (p, polled, (count, fits, is')) = poll-IsSized k el is in
        let (r, run, (total, is'')) = fire_loop-IsSized p.0 0 0 p.1 p.2 (omega arith) is' in
        (
          r,
          simp (process_events, busy, polled, run, ◌>>=◌),
          (rw busy (omega (arith, total, count)), is''),
        )
  ]
