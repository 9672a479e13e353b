-- ===== src/Base/Decimal.antt =====
-- The C library's `isdigit`, `atoi` and `%d`, on bytes, for numbers that are not negative.
use dictionary.Base.Faults.{Run, ok, fault}
use dictionary.Base.Lists.{length, All}
use dictionary.Base.Tests.{leb, ltb, Bool-cases}
use Prim.Native.Nat.{ℕ, zero, suc, ◌+◌, ◌-◌, ◌*◌, ◌/◌, ◌%◌, ◌^◌, ◌≤◌, ◌<◌}
use mathlib.Core.Bool.{Bool, true, false, ◌&&◌}
use mathlib.Core.List.{List, [], ◌∷◌, ◌++◌}
use mathlib.Core.Logic.{inl, inr}
use mathlib.Core.Path.{◌≡◌, refl, sym}
use native.Mathlib.Numerals.{unary_clauses}
use native.Mathlib.Omega.{arith}

abbrev pub is_digit : ℕ → Bool
is_digit c = leb 48 c && leb c 57

-- `atoi` from the digits seen so far: it stops at the first other byte, faults on an array without
-- one, and where the number does not fit an `int`.
unfoldable pub atoi : List ℕ → ℕ → Run ℕ
atoi [] acc = fault
atoi (c ∷ cs) acc =
    let v = acc * 10 + (c - 48) in
    elim (is_digit c) [
      | false ↦ ok acc
      | true ↦ elim (ltb v (2 ^ 31)) [ false ↦ fault | true ↦ atoi cs v ]
    ]

-- The digits of `n`, at most `f` of them, in front of `rest`.
unfoldable pub digits : ℕ → ℕ → List ℕ → List ℕ
digits zero n rest = rest
digits (suc f) n rest = elim (ltb n 10) [
  | true ↦ (48 + n) ∷ rest
  | false ↦ digits f (n / 10) ((48 + n % 10) ∷ rest)
]

-- `%d` of an `int`, which has at most 10 digits.
unfoldable pub decimal : ℕ → List ℕ
decimal n = digits 10 n []

digits_small : (f n : ℕ) (rest : List ℕ) → ltb n 10 ≡ true → digits (suc f) n rest ≡ (48 + n) ∷ rest
unfolding digits
digits_small f n rest h = rw (digits, h)

digits_large :
    (f n : ℕ) (rest : List ℕ)
    → ltb n 10 ≡ false
    → digits (suc f) n rest ≡ digits f (n / 10) ((48 + n % 10) ∷ rest)
unfolding digits
digits_large f n rest h = rw (digits, h)

digits-All :
    (f n : ℕ) (rest : List ℕ)
    → All (λ c. is_digit c ≡ true) rest
    → All (λ c. is_digit c ≡ true) (digits f n rest)
unfolding digits
digits-All zero n rest a = a
digits-All (suc f) n rest a = elim (Bool-cases (ltb n 10)) [
  | inl small ↦ rw (digits_small f n rest small) (ground arith, a)
  | inr large ↦ rw (digits_large f n rest large) (digits-All f (n / 10) _ (ground arith, a))
]

digits-length : (f n : ℕ) (rest : List ℕ) → length (digits f n rest) ≤ f + length rest
unfolding digits
digits-length zero n rest = omega arith
digits-length (suc f) n rest = elim (Bool-cases (ltb n 10)) [
  | inl small ↦ rw (digits_small f n rest small) (omega arith)
  | inr large ↦
      rw (digits_large f n rest large)
        (omega (arith, digits-length f (n / 10) ((48 + n % 10) ∷ rest)))
]

atoi_digit :
    (c : ℕ) (cs : List ℕ) (acc : ℕ)
    → c < 10
    → acc * 10 + c < 2 ^ 31
    → atoi ((48 + c) ∷ cs) acc ≡ atoi cs (acc * 10 + c)
unfolding atoi
atoi_digit c cs acc h b =
    let digit : is_digit (48 + c) ≡ true = ground arith in
    let back : 48 + c - 48 ≡ c = omega arith in
    let fits : ltb (acc * 10 + c) (2 ^ 31) ≡ true = ground arith in
    rw (atoi, digit, back) (rw (fits, back))

atoi_stop : (c : ℕ) (cs : List ℕ) (acc : ℕ) → is_digit c ≡ false → atoi (c ∷ cs) acc ≡ ok acc
unfolding atoi
atoi_stop c cs acc h = rw (atoi, h)

digits-append : (f n : ℕ) (rest tail : List ℕ) → digits f n (rest ++ tail) ≡ digits f n rest ++ tail
unfolding digits
digits-append zero n rest tail = refl
digits-append (suc f) n rest tail = elim (Bool-cases (ltb n 10)) [
  | inl small ↦ rw (digits_small f n rest small, digits_small f n (rest ++ tail) small)
  | inr large ↦
      rw (digits_large f n rest large, digits_large f n (rest ++ tail) large)
        (digits-append f (n / 10) ((48 + n % 10) ∷ rest) tail)
]

atoi-digits :
    (f n : ℕ) (rest : List ℕ) → n < 10 ^ f → n < 2 ^ 31 → atoi (digits f n rest) 0 ≡ atoi rest n
unfolding digits
atoi-digits zero n rest h b = let e : n ≡ 0 = omega arith in rw e
atoi-digits (suc f) n rest h b = elim (Bool-cases (ltb n 10)) [
  | inl small ↦
      let e : 0 * 10 + n ≡ n = omega arith in
      rw (digits_small f n rest small) (rw e at (atoi_digit n rest 0 (ground arith) (omega arith)))
  | inr large ↦
      let whole : n / 10 * 10 + n % 10 ≡ n = omega arith in
      let p : 10 ^ suc f ≡ 10 ^ f * 10 = simp unary_clauses in
      let below : n / 10 < 10 ^ f = omega arith in
      rw (
        digits_large f n rest large,
        atoi-digits f (n / 10) ((48 + n % 10) ∷ rest) below (omega arith),
        atoi_digit (n % 10) rest (n / 10) (omega arith) (omega arith),
        whole,
      )
]

pub decimal-All : (n : ℕ) → All (λ c. is_digit c ≡ true) (decimal n)
unfolding decimal
decimal-All n = digits-All 10 n [] tt

pub length-decimal : (n : ℕ) → length (decimal n) ≤ 10
unfolding decimal
length-decimal n = digits-length 10 n []

-- `atoi` reads what `%d` writes.
pub atoi-decimal :
    (n c : ℕ) (rest : List ℕ)
    → n < 2 ^ 31
    → is_digit c ≡ false
    → atoi (decimal n ++ c ∷ rest) 0 ≡ ok n
unfolding decimal
atoi-decimal n c rest h stop =
    rw (sym (digits-append 10 n [] (c ∷ rest)))
      (rw (atoi-digits 10 n (c ∷ rest) (omega arith) h) (atoi_stop c rest n stop))
