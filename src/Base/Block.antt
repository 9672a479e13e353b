-- ===== src/Base/Block.antt =====
-- `memcpy` between blocks of memory, byte by byte.
use dictionary.Base.Faults.{Run, ok, ◌>>=◌, Returns, at, put, at-drop, bind_ok, put-set}
use dictionary.Base.Lists.{
  length, set, take, drop, length-set, replicate, length-replicate, length-append,
}
use Prim.Native.Nat.{ℕ, zero, suc, ◌+◌, ◌-◌, ◌<◌, ◌≤◌}
use mathlib.Core.List.{List, [], ◌∷◌, ◌++◌, append_assoc, append-nil}
use mathlib.Core.Path.{◌≡◌, refl, ap, sym, ◌∙◌}
use native.Mathlib.Numerals.{add-one}
use native.Mathlib.Omega.{arith}

module _ {ℓ} {A : Type ℓ} where
  -- The `n` cells from `i` on.
  unfoldable pub read_block : List A → ℕ → ℕ → Run (List A)
  read_block xs i zero = ok []
  read_block xs i (suc n) = at xs i >>= λ x. read_block xs (i + 1) n >>= λ r. ok (x ∷ r)

  unfoldable pub write_block : List A → ℕ → List A → Run (List A)
  write_block xs i [] = ok xs
  write_block xs i (b ∷ bs) = put xs i b >>= λ ys. write_block ys (i + 1) bs

  pub write_block_one : (xs : List A) (i : ℕ) (b : A) → write_block xs i (b ∷ []) ≡ put xs i b
  unfolding write_block
  write_block_one xs i b = bind_ok (put xs i b)

  pub take-set_self : (xs : List A) (i : ℕ) (v : A) → take i (set xs i v) ≡ take i xs
  take-set_self [] i v = refl
  take-set_self (x ∷ xs) zero v = refl
  take-set_self (x ∷ xs) (suc i) v = ap (λ r. x ∷ r) (take-set_self xs i v)

  pub take-set-suc :
      (xs : List A) (i : ℕ) (v : A)
      → i < length xs
      → take (suc i) (set xs i v) ≡ take i xs ++ v ∷ []
  take-set-suc [] i v h = absurd (omega arith)
  take-set-suc (x ∷ xs) zero v h = refl
  take-set-suc (x ∷ xs) (suc i) v h = ap (λ r. x ∷ r) (take-set-suc xs i v (omega arith))

  -- The write stays inside the block, keeps what is in front of it, and puts the bytes there.
  pub write_block-lem :
      (xs : List A) (i : ℕ) (bs : List A)
      → i + length bs ≤ length xs
      → Returns
          (write_block xs i bs)
          λ ys. (length ys ≡ length xs) × (take (i + length bs) ys ≡ take i xs ++ bs)
  unfolding write_block
  write_block-lem xs i [] h =
      let e : i + 0 ≡ i = omega arith in (xs, refl, (refl, rw (e, append-nil)))
  write_block-lem xs i (b ∷ bs) h =
      let (ys, run, (len, text)) =
        write_block-lem (set xs i b) (i + 1) bs (rw length-set (omega arith)) in
      let e : i + suc (length bs) ≡ i + 1 + length bs = omega arith in
      let s : i + 1 ≡ suc i = omega arith in
      (
        ys,
        rw (put-set xs i b (omega arith)) run,
        (
          len ∙ length-set xs i b,
          rw e (text ∙ rw (s, take-set-suc xs i b (omega arith), append_assoc)),
        ),
      )

  pub take-take : (i j : ℕ) (xs : List A) → i ≤ j → take i (take j xs) ≡ take i xs
  take-take zero j xs h = refl
  take-take (suc i) zero xs h = absurd (omega arith)
  take-take (suc i) (suc j) [] h = refl
  take-take (suc i) (suc j) (x ∷ xs) h = ap (λ r. x ∷ r) (take-take i j xs (omega arith))

  pub take-append_left : (xs ys : List A) → take (length xs) (xs ++ ys) ≡ xs
  take-append_left [] ys = refl
  take-append_left (x ∷ xs) ys = ap (λ r. x ∷ r) (take-append_left xs ys)

  pub take-all : (xs : List A) → take (length xs) xs ≡ xs
  take-all [] = refl
  take-all (x ∷ xs) = ap (λ r. x ∷ r) (take-all xs)

  pub length-take : (n : ℕ) (xs : List A) → n ≤ length xs → length (take n xs) ≡ n
  length-take zero xs h = refl
  length-take (suc n) [] h = absurd (omega arith)
  length-take (suc n) (x ∷ xs) h = ap suc (length-take n xs (omega arith))

  drop-uncons : (xs : List A) (i : ℕ) → i < length xs → (x : A) × (drop i xs ≡ x ∷ drop (suc i) xs)
  drop-uncons [] i h = absurd (omega arith)
  drop-uncons (x ∷ xs) zero h = (x, refl)
  drop-uncons (x ∷ xs) (suc i) h = drop-uncons xs i (omega arith)

  -- Reading gives the cells themselves.
  pub read_block-lem :
      (xs : List A) (i n : ℕ) → i + n ≤ length xs → read_block xs i n ≡ ok (take n (drop i xs))
  unfolding read_block
  read_block-lem xs i zero h = refl
  read_block-lem xs i (suc n) h =
      let (x, e) = drop-uncons xs i (omega arith) in
      rw (at-drop xs i x _ e, read_block-lem xs (i + 1) n (omega arith), e) (rw add-one)

  pub put-append :
      (pre : List A) (x : A) (post : List A) (v : A)
      → put (pre ++ x ∷ post) (length pre) v ≡ ok (pre ++ v ∷ post)
  unfolding put
  put-append [] x post v = refl
  put-append (p ∷ pre) x post v = rw (put-append pre x post v)

  replicate-split : (n k : ℕ) (v : A) → k ≤ n → replicate n v ≡ replicate k v ++ replicate (n - k) v
  replicate-split n zero v h = let e : n - 0 ≡ n = omega arith in rw e
  replicate-split zero (suc k) v h = absurd (omega arith)
  replicate-split (suc n) (suc k) v h =
      let e : suc n - suc k ≡ n - k = omega arith in
      rw e (ap (λ r. v ∷ r) (replicate-split n k v (omega arith)))

  -- A write over as many cells, in terms of what stands around them.
  pub write_block_over :
      (pre old post bs : List A)
      → length old ≡ length bs
      → write_block (pre ++ (old ++ post)) (length pre) bs ≡ ok (pre ++ (bs ++ post))
  unfolding write_block
  write_block_over pre [] post [] h = refl
  write_block_over pre [] post (b ∷ bs) h = absurd (omega arith)
  write_block_over pre (o ∷ old) post [] h = absurd (omega arith)
  write_block_over pre (o ∷ old) post (b ∷ bs) h =
      let e = write_block_over (pre ++ b ∷ []) old post bs (omega arith) in
      let l : length (pre ++ b ∷ []) ≡ length pre + 1 = length-append pre (b ∷ []) in
      let at_end = sym (append_assoc pre (b ∷ []) (old ++ post)) in
      let joined = append_assoc pre (b ∷ []) (bs ++ post) in
      rw (put-append pre o (old ++ post) b, ◌>>=◌)
        (ap (λ i. write_block (pre ++ b ∷ (old ++ post)) i bs) (sym l)
          ∙ ap (λ xs. write_block xs (length (pre ++ b ∷ [])) bs) at_end
          ∙ e
          ∙ ap ok joined)

  -- A write at the start of an array of equal cells.
  pub write_block-replicate :
      (n : ℕ) (v : A) (bs : List A)
      → length bs ≤ n
      → write_block (replicate n v) 0 bs ≡ ok (bs ++ replicate (n - length bs) v)
  write_block-replicate n v bs h = rw (replicate-split n (length bs) v h) (
      write_block_over [] (replicate (length bs) v) (replicate (n - length bs) v) bs
        (length-replicate (length bs) v))

  pub drop-append : (xs ys : List A) → drop (length xs) (xs ++ ys) ≡ ys
  drop-append [] ys = refl
  drop-append (x ∷ xs) ys = drop-append xs ys

  pub take-over : (n : ℕ) (xs : List A) → length xs ≤ n → take n xs ≡ xs
  take-over zero [] h = refl
  take-over zero (x ∷ xs) h = absurd (omega arith)
  take-over (suc n) [] h = refl
  take-over (suc n) (x ∷ xs) h = ap (λ r. x ∷ r) (take-over n xs (omega arith))

  pub replicate-head : (n : ℕ) (v : A) → 0 < n → replicate n v ≡ v ∷ replicate (n - 1) v
  replicate-head zero v h = absurd (omega arith)
  replicate-head (suc n) v h = let e : suc n - 1 ≡ n = omega arith in rw e
