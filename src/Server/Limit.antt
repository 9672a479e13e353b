-- ===== src/Server/Limit.antt =====
-- The loop of serverSetFileDescriptorLimit. `setrlimit` tells whether the kernel accepts a limit.
use dictionary.Base.{
  ℕ, zero, suc, ◌+◌, ◌-◌, ◌*◌, ◌%◌, ◌^◌, ◌≤◌, ◌<◌, ◌≡◌, Bool, true, false, Option, none, some, ltb,
  ◌⊎◌, inl, inr, Bool-cases, arith,
}

module _ (setrlimit : ℕ → Bool) where
  -- `while (targetlimit > currentlimit)`, on fuel; `rlim_t` has 64 bits.
  unfoldable pub limit_loop : ℕ → ℕ → ℕ → Option ℕ
  limit_loop zero target current = none
  limit_loop (suc fuel) target current = elim (ltb current target) [
    | false ↦ some target
    | true ↦ elim (setrlimit target) [
      | true ↦ some target
      | false ↦ limit_loop fuel ((target + (2 ^ 64 - 12)) % 2 ^ 64) current
    ]
  ]

  -- `server.maxclients`; the first target is 10024 and 836 rounds are enough from there.
  unfoldable pub max_clients : ℕ → Option ℕ
  max_clients current = limit_loop 836 10024 current

  -- `target` is reached from `start` in steps of 12, the kernel refused every limit that was tried on
  -- the way, and the loop has a reason to stop.
  pub record IsLimit (start current target : ℕ) : Type 0 where
    pub steps : (k : ℕ) × (target + 12 * k ≡ start)
    pub refused : (k : ℕ) → target < start - 12 * k → setrlimit (start - 12 * k) ≡ false
    pub reached : (target ≤ current) ⊎ (setrlimit target ≡ true)

  at_once :
      (start current : ℕ)
      → (start ≤ current) ⊎ (setrlimit start ≡ true)
      → IsLimit start current start
  at_once start current reason = record {
    steps = (0, omega arith);
    refused = λ k h. absurd (omega arith);
    reached = reason;
  }

  one_more :
      (n current target : ℕ)
      → setrlimit (n + 12) ≡ false
      → IsLimit n current target
      → IsLimit (n + 12) current target
  one_more n current target no_limit is = record {
    steps = (is.steps.0 + 1, omega (arith, is.steps.1));
    refused = refused;
    reached = is.reached;
  }
    where
      refused : (k : ℕ) → target < n + 12 - 12 * k → setrlimit (n + 12 - 12 * k) ≡ false
      refused zero h = let e : n + 12 - 12 * 0 ≡ n + 12 = omega arith in rw e no_limit
      refused (suc k) h =
          let e : n + 12 - 12 * suc k ≡ n - 12 * k = omega arith in rw e (is.refused k (rw e at h))

  limit_loop-IsLimit :
      (fuel m current : ℕ)
      → m < fuel
      → 4 ≤ current
      → 12 * m + 4 < 2 ^ 64
      → (t : ℕ) × (limit_loop fuel (12 * m + 4) current ≡ some t) × IsLimit (12 * m + 4) current t
  unfolding limit_loop
  limit_loop-IsLimit zero m current h floor wide = absurd (omega arith)
  limit_loop-IsLimit (suc fuel) zero current h floor wide =
      let e : ltb current (12 * 0 + 4) ≡ false = ground arith in
      (12 * 0 + 4, rw (limit_loop, e), at_once _ current (inl (omega arith)))
  limit_loop-IsLimit (suc fuel) (suc m) current h floor wide =
      elim (Bool-cases (ltb current (12 * suc m + 4))) [
        | inr reached ↦
            (12 * suc m + 4, rw (limit_loop, reached), at_once _ current (inl (ground arith)))
        | inl above ↦ elim (Bool-cases (setrlimit (12 * suc m + 4))) [
          | inl set ↦ (12 * suc m + 4, rw (limit_loop, above) (rw set), at_once _ current (inr set))
          | inr no_limit ↦
              let (t, run, is) =
                limit_loop-IsLimit fuel m current (omega arith) floor (omega arith) in
              let next : (12 * suc m + 4 + (2 ^ 64 - 12)) % 2 ^ 64 ≡ 12 * m + 4 = omega arith in
              let e : 12 * suc m + 4 ≡ 12 * m + 4 + 12 = omega arith in
              (
                t,
                rw (limit_loop, above) (rw no_limit (rw next run)),
                rw e (one_more (12 * m + 4) current t (rw e at no_limit) is),
              )
        ]
      ]

  -- Where at least four descriptors are allowed, the loop ends within 836 rounds, at a limit that is
  -- 10024 less some number of steps of 12: one that does not exceed the current limit or that the
  -- kernel accepts, while it refused every higher one of them.
  pub max_clients-IsLimit :
      (current : ℕ)
      → 4 ≤ current
      → (t : ℕ) × (max_clients current ≡ some t) × IsLimit 10024 current t
  unfolding max_clients
  max_clients-IsLimit current h = limit_loop-IsLimit 836 835 current (omega arith) h (omega arith)
