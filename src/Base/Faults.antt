-- ===== src/Base/Faults.antt =====
-- The result of code that reads and writes memory: `fault` stands for undefined behaviour, an
-- access outside the object or through NULL.
use Prim.Native.Nat.{ℕ, zero, suc, ◌+◌, ◌<◌, ◌≤◌}
use mathlib.Core.Path.{◌≡◌, refl}
use mathlib.Core.Bool.{Bool, true, false}
use mathlib.Core.List.{List, [], ◌∷◌}
use native.Mathlib.Omega.{arith}
use dictionary.Base.Lists.{length, get_or, set, drop}
use native.Mathlib.Numerals.{add-one}

pub data Run {ℓ} (A : Type ℓ) : Type ℓ where
  ok : A → Run A
  fault : Run A

infixl 5 ◌>>=◌ ◌>>◌
abbrev pub ◌>>=◌ {ℓ κ} : {A : Type ℓ} {B : Type κ} → Run A → (A → Run B) → Run B
ok a >>= f = f a
fault >>= f = fault

abbrev pub ◌>>◌ {ℓ} : {B : Type ℓ} → Run (Unit {0}) → Run B → Run B
m >> k = m >>= λ _. k

pub bind_assoc {ℓ κ μ} :
    {A : Type ℓ} {B : Type κ} {C : Type μ} (m : Run A) (f : A → Run B) (g : B → Run C)
    → ((m >>= f) >>= g) ≡ (m >>= λ a. f a >>= g)
bind_assoc (ok a) f g = refl
bind_assoc fault f g = refl

pub bind_ok {ℓ} : {A : Type ℓ} (m : Run A) → (m >>= λ a. ok a) ≡ m
bind_ok (ok a) = refl
bind_ok fault = refl

pub bind_congr {ℓ κ} :
    {A : Type ℓ} {B : Type κ} (m : Run A) (f g : A → Run B)
    → ((a : A) → m ≡ ok a → f a ≡ g a)
    → (m >>= f) ≡ (m >>= g)
bind_congr (ok a) f g h = h a refl
bind_congr fault f g h = refl

-- A chain that ends well: its first part does, and so does the rest from there.
pub >>=-eq-ok {ℓ κ} :
    {First : Type ℓ} {Last : Type κ} (run : Run First) (next : First → Run Last) {result : Last}
    → (run >>= next) ≡ ok result
    → (x : First) × (run ≡ ok x) × (next x ≡ ok result)
>>=-eq-ok (ok x) next e = (x, refl, e)
>>=-eq-ok fault next e = cc

-- The run ends, with a result that satisfies `P`.
abbrev pub Returns {ℓ κ} : {Result : Type ℓ} (run : Run Result) (P : Result → Type κ) → Type (ℓ ⊔ κ)
Returns {Result} run P = (x : Result) × (run ≡ ok x) × P x

-- What a call that says whether it succeeds leaves to be done in either case
abbrev pub attempt {ℓ} : {W : Type 0} {R : Type ℓ} → Bool × W → (W → R) → (W → R) → R
attempt (true, w) next error = next w
attempt (false, w) next error = error w

module _ {ℓ} {A : Type ℓ} where
  -- `xs[i]`
  unfoldable pub at : List A → ℕ → Run A
  at [] i = fault
  at (x ∷ xs) zero = ok x
  at (x ∷ xs) (suc i) = at xs i

  -- `xs[i] = v`
  unfoldable pub put : List A → ℕ → A → Run (List A)
  put [] i v = fault
  put (x ∷ xs) zero v = ok (v ∷ xs)
  put (x ∷ xs) (suc i) v = put xs i v >>= λ ys. ok (x ∷ ys)

  pub at-get_or : (xs : List A) (i : ℕ) (d : A) → i < length xs → at xs i ≡ ok (get_or xs i d)
  unfolding at
  at-get_or [] i d h = absurd (omega arith)
  at-get_or (x ∷ xs) zero d h = refl
  at-get_or (x ∷ xs) (suc i) d h = at-get_or xs i d (omega arith)

  pub put-set : (xs : List A) (i : ℕ) (v : A) → i < length xs → put xs i v ≡ ok (set xs i v)
  unfolding put
  put-set [] i v h = absurd (omega arith)
  put-set (x ∷ xs) zero v h = refl
  put-set (x ∷ xs) (suc i) v h = rw (put-set xs i v (omega arith))

  pub at-fault : (xs : List A) (i : ℕ) → length xs ≤ i → at xs i ≡ fault
  unfolding at
  at-fault [] i h = refl
  at-fault (x ∷ xs) zero h = absurd (omega arith)
  at-fault (x ∷ xs) (suc i) h = at-fault xs i (omega arith)

  pub put-fault : (xs : List A) (i : ℕ) (v : A) → length xs ≤ i → put xs i v ≡ fault
  unfolding put
  put-fault [] i v h = refl
  put-fault (x ∷ xs) zero v h = absurd (omega arith)
  put-fault (x ∷ xs) (suc i) v h = rw (put-fault xs i v (omega arith))

  -- Reads at the head of what is left of a list.
  pub at-drop : (xs : List A) (i : ℕ) (c : A) (cs : List A) → drop i xs ≡ c ∷ cs → at xs i ≡ ok c
  unfolding at
  at-drop [] zero c cs e = cc
  at-drop [] (suc i) c cs e = cc
  at-drop (x ∷ xs) zero c cs e = cc
  at-drop (x ∷ xs) (suc i) c cs e = at-drop xs i c cs e

  pub drop_next :
      (xs : List A) (i : ℕ) (c : A) (cs : List A) → drop i xs ≡ c ∷ cs → drop (i + 1) xs ≡ cs
  drop_next xs i c cs e = rw add-one (go xs i e)
    where
      go : (ys : List A) (j : ℕ) → drop j ys ≡ c ∷ cs → drop (suc j) ys ≡ cs
      go [] zero e = cc
      go [] (suc j) e = cc
      go (y ∷ ys) zero e = cc
      go (y ∷ ys) (suc j) e = go ys j e
