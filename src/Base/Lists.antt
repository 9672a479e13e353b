-- ===== src/Base/Lists.antt =====
-- Lists measured and indexed by native numbers: the arrays and byte blocks of the C code.
use Prim.Native.Nat.{ℕ, zero, suc, ◌+◌, ◌<◌}
use mathlib.Core.Path.{◌≡◌, refl, ap}
use mathlib.Core.List.{List, [], ◌∷◌, ◌++◌, flatten}
use native.Mathlib.Omega.{arith}

module _ {ℓ} {A : Type ℓ} where
  abbrev pub length : List A → ℕ
  length [] = 0
  length (x ∷ xs) = suc (length xs)

  abbrev pub get_or : List A → ℕ → A → A
  get_or [] i d = d
  get_or (x ∷ xs) zero d = x
  get_or (x ∷ xs) (suc i) d = get_or xs i d

  -- A write out of bounds changes nothing; the operations of `Run` fault on it.
  abbrev pub set : List A → ℕ → A → List A
  set [] i v = []
  set (x ∷ xs) zero v = v ∷ xs
  set (x ∷ xs) (suc i) v = x ∷ set xs i v

  abbrev pub take : ℕ → List A → List A
  take zero xs = []
  take (suc n) [] = []
  take (suc n) (x ∷ xs) = x ∷ take n xs

  abbrev pub drop : ℕ → List A → List A
  drop zero xs = xs
  drop (suc n) [] = []
  drop (suc n) (x ∷ xs) = drop n xs

  abbrev pub replicate : ℕ → A → List A
  replicate zero a = []
  replicate (suc n) a = a ∷ replicate n a

  abbrev pub All {κ} : (A → Type κ) → List A → Type κ
  All P [] = Unit
  All P (x ∷ xs) = P x × All P xs

module _ {ℓ} {A : Type ℓ} where
  pub nil_of_length : (xs : List A) → length xs ≡ 0 → xs ≡ []
  nil_of_length [] h = refl
  nil_of_length (x ∷ xs) h = absurd (omega arith)

  pub length-append : (xs ys : List A) → length (xs ++ ys) ≡ length xs + length ys
  length-append [] ys = omega arith
  length-append (x ∷ xs) ys = omega (arith, length-append xs ys)

  pub length-set : (xs : List A) (i : ℕ) (v : A) → length (set xs i v) ≡ length xs
  length-set [] i v = refl
  length-set (x ∷ xs) zero v = refl
  length-set (x ∷ xs) (suc i) v = ap suc (length-set xs i v)

  pub length-replicate : (n : ℕ) (a : A) → length (replicate n a) ≡ n
  length-replicate zero a = refl
  length-replicate (suc n) a = ap suc (length-replicate n a)

  pub get_or-replicate : (n i : ℕ) (a : A) → get_or (replicate n a) i a ≡ a
  get_or-replicate zero i a = refl
  get_or-replicate (suc n) zero a = refl
  get_or-replicate (suc n) (suc i) a = get_or-replicate n i a

  pub get_or-set_self :
      (xs : List A) (i : ℕ) (v d : A) → i < length xs → get_or (set xs i v) i d ≡ v
  get_or-set_self [] i v d h = absurd (omega arith)
  get_or-set_self (x ∷ xs) zero v d h = refl
  get_or-set_self (x ∷ xs) (suc i) v d h = get_or-set_self xs i v d (omega arith)

  pub get_or-set_ne :
      (xs : List A) (i j : ℕ) (v d : A) → ¬ (i ≡ j) → get_or (set xs i v) j d ≡ get_or xs j d
  get_or-set_ne [] i j v d h = refl
  get_or-set_ne (x ∷ xs) zero zero v d h = absurd (h refl)
  get_or-set_ne (x ∷ xs) zero (suc j) v d h = refl
  get_or-set_ne (x ∷ xs) (suc i) zero v d h = refl
  get_or-set_ne (x ∷ xs) (suc i) (suc j) v d h = get_or-set_ne xs i j v d (omega arith)

  pub get_or-take : (xs : List A) (i n : ℕ) (d : A) → i < n → get_or (take n xs) i d ≡ get_or xs i d
  get_or-take xs i zero d h = absurd (omega arith)
  get_or-take [] i (suc n) d h = refl
  get_or-take (x ∷ xs) zero (suc n) d h = refl
  get_or-take (x ∷ xs) (suc i) (suc n) d h = get_or-take xs i n d (omega arith)

  -- A property of each place that a write keeps at its own place holds everywhere afterwards.
  pub get_or-set_all {κ} :
      (P : ℕ → A → Type κ) (xs : List A) (h : ℕ) (v d : A)
      → P h v
      → ((i : ℕ) → P i (get_or xs i d))
      → (i : ℕ) → P i (get_or (set xs h v) i d)
  get_or-set_all P [] h v d p all i = all i
  get_or-set_all P (x ∷ xs) zero v d p all zero = p
  get_or-set_all P (x ∷ xs) zero v d p all (suc i) = all (suc i)
  get_or-set_all P (x ∷ xs) (suc h) v d p all zero = all zero
  get_or-set_all P (x ∷ xs) (suc h) v d p all (suc i) =
      get_or-set_all (λ j. P (suc j)) xs h v d p (λ j. all (suc j)) i

  -- What replacing one row does to the number of cells.
  pub length-flatten-set :
      (rows : List (List A)) (at_row : ℕ) (new : List A)
      → at_row < length rows
      → length (flatten (set rows at_row new)) + length (get_or rows at_row [])
        ≡ length (flatten rows) + length new
  unfolding flatten
  length-flatten-set [] at_row new h = absurd (omega arith)
  length-flatten-set (r ∷ rows) zero new h =
      omega (arith, length-append r (flatten rows), length-append new (flatten rows))
  length-flatten-set (r ∷ rows) (suc at_row) new h = omega (
    arith,
    length-flatten-set rows at_row new (omega arith),
    length-append r (flatten rows),
    length-append r (flatten (set rows at_row new)),
  )

  module _ {κ} (P : A → Type κ) where
    pub All-append : (xs ys : List A) → All P xs → All P ys → All P (xs ++ ys)
    All-append [] ys p q = q
    All-append (x ∷ xs) ys p q = (p.0, All-append xs ys p.1 q)

pub flatten-replicate {ℓ} : (A : Type ℓ) (n : ℕ) → flatten (replicate {A = List A} n []) ≡ []
unfolding flatten
flatten-replicate A zero = refl
flatten-replicate A (suc n) = flatten-replicate A n
