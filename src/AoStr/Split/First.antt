-- ===== src/AoStr/Split/First.antt =====
-- The first string that aoStrSplit stores.
use dictionary.AoStr.{Libc, dup_raw}
use dictionary.AoStr.Split.{PointerArray, store_next, grow, split_loop, split, skip_first}
use dictionary.Base.{
  ℕ, ◌≡◌, refl, some, List, [], ◌∷◌, ◌++◌, Run, ok, fault, ◌>>=◌, length, ◌==◌, Bool-cases, inl,
  inr,
}

bind_fault :
    {A B : Type 0} (m : Run A) (f : A → Run B) → ((a : A) → f a ≡ fault) → (m >>= f) ≡ fault
bind_fault (ok a) f h = h a
bind_fault fault f h = refl

-- The array as the first `malloc` gives it
abbrev started : PointerArray
started = record { stored = []; bytes = 5 }

module _ (libc : Libc) (delimiter : ℕ) where
  split_loop-fault : (rest token : List ℕ) → split_loop libc delimiter started 5 token rest ≡ fault
  unfolding split_loop store_next grow
  split_loop-fault [] token = refl
  split_loop-fault (c ∷ cs) token = elim (Bool-cases (c == 0)) [
    | inl nul ↦ rw (split_loop, nul) (bind_fault (dup_raw libc token (length token)) _ (λ s. refl))
    | inr more ↦ elim (Bool-cases (c == delimiter)) [
      | inl apart ↦
          rw (split_loop, more)
            (rw (apart) (bind_fault (dup_raw libc token (length token)) _ (λ s. refl)))
      | inr inside ↦ rw (split_loop, more) (rw inside (split_loop-fault cs (token ++ c ∷ [])))
    ]
  ]

  -- Where the first `malloc` finds its five bytes, `aoStrSplit` writes outside them on every string
  -- and for every delimiter: a pointer has eight.
  pub split-fault :
      (to_split five : List ℕ) → libc.malloc 5 ≡ some five → split libc to_split delimiter ≡ fault
  unfolding split
  split-fault to_split five made =
      rw (split, made) (split_loop-fault (skip_first delimiter to_split) [])
