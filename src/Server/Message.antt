-- ===== src/Server/Message.antt =====
-- What serverReadClientMessage makes of the bytes that client.c sends, and of others.
use dictionary.Base.Block.{
  read_block, write_block, put-append, take-append_left, write_block-replicate, write_block-lem,
  read_block-lem, drop-append, take-set-suc, replicate-head,
}
use dictionary.Base.Decimal.{is_digit, atoi, atoi-decimal, decimal, decimal-All, length-decimal}
use dictionary.Base.{
  ℕ, zero, suc, ◌+◌, ◌-◌, ◌^◌, ◌≤◌, ◌<◌, ◌≡◌, refl, sym, ap, ◌∙◌, true, false, ◌||◌, none, some,
  List, [], ◌∷◌, ◌++◌, ok, fault, ◌>>=◌, Returns, put, put-set, put-fault, set, length,
  length-append, replicate, length-replicate, All, drop, take, at-drop, drop_next, bind_congr,
  bind_assoc, ◌==◌, arith,
}
use dictionary.Server.{copy_word, copy_number, finish, read_client_message}

-- What a word of the protocol holds: no NUL and no colon.
abbrev pub IsWord : List ℕ → Type 0
IsWord w = All (λ c. (c == 58 || c == 0) ≡ false) w

abbrev pub IsNumber : List ℕ → Type 0
IsNumber ds = All (λ c. is_digit c ≡ true) ds

-- The first loop copies a word of fewer than 200 bytes and stops behind it.
copy_word-lem :
    (w : List ℕ) (n : ℕ) (msg : List ℕ) (ptr : ℕ) (tmp : List ℕ) (i c : ℕ) (rest : List ℕ)
    → IsWord w
    → length w < n
    → (c == 58 || c == 0) ≡ true
    → drop ptr msg ≡ w ++ c ∷ rest
    → copy_word n msg ptr tmp i ≡ (write_block tmp i w >>= λ tmp'. ok (ptr + length w, tmp'))
unfolding copy_word write_block
copy_word-lem [] zero msg ptr tmp i c rest w h stop d = absurd (omega arith)
copy_word-lem [] (suc n) msg ptr tmp i c rest w h stop d =
    let e : ptr + 0 ≡ ptr = omega arith in rw (copy_word, at-drop msg ptr c rest d, ◌>>=◌, stop, e)
copy_word-lem (b ∷ w) zero msg ptr tmp i c rest a h stop d = absurd (omega arith)
copy_word-lem (b ∷ w) (suc n) msg ptr tmp i c rest a h stop d =
    let e : ptr + suc (length w) ≡ ptr + 1 + length w = omega arith in
    rw (copy_word, at-drop msg ptr b (w ++ c ∷ rest) d, ◌>>=◌, a.0, e)
      (bind_congr (put tmp i b) _ _ (λ t p.
          copy_word-lem w n msg (ptr + 1) t (i + 1) c rest a.1 (omega arith) stop
            (drop_next msg ptr b (w ++ c ∷ rest) d))
        ∙ sym (bind_assoc (put tmp i b) _ _))

copy_number-lem :
    (ds : List ℕ) (n : ℕ) (msg : List ℕ) (ptr : ℕ) (str : List ℕ) (i : ℕ) (rest : List ℕ)
    → IsNumber ds
    → length ds < n
    → drop ptr msg ≡ ds ++ 0 ∷ rest
    → copy_number n msg ptr str i ≡ (write_block str i ds >>= λ str'. ok (some str'))
unfolding copy_number write_block
copy_number-lem [] zero msg ptr str i rest a h d = absurd (omega arith)
copy_number-lem [] (suc n) msg ptr str i rest a h d =
    rw (copy_number, at-drop msg ptr 0 rest d, ◌>>=◌)
copy_number-lem (b ∷ ds) zero msg ptr str i rest a h d = absurd (omega arith)
copy_number-lem (b ∷ ds) (suc n) msg ptr str i rest a h d =
    let digit = a.0 in
    let nonzero : (b == 0) ≡ false = ground arith in
    rw (copy_number, at-drop msg ptr b (ds ++ 0 ∷ rest) d, ◌>>=◌, nonzero)
      (rw (a.0) (
        bind_congr (put str i b) _ _ (λ t p.
          copy_number-lem ds n msg (ptr + 1) t (i + 1) rest a.1 (omega arith)
            (drop_next msg ptr b (ds ++ 0 ∷ rest) d))
        ∙ sym (bind_assoc (put str i b) _ _)))

-- A message of a word, a colon and a number is read up to `finish`.
pub read-finish :
    (w : List ℕ) (n : ℕ) (rest word : List ℕ)
    → IsWord w
    → length w < 200
    → read_client_message (w ++ 58 ∷ (decimal n ++ 0 ∷ rest)) word
      ≡ finish
          (w ++ replicate (200 - length w) 0)
          (decimal n ++ replicate (200 - length (decimal n)) 0)
          word
unfolding read_client_message
read-finish w n rest word a h =
    let msg = w ++ 58 ∷ (decimal n ++ 0 ∷ rest) in
    let tail = decimal n ++ 0 ∷ rest in
    let zeros : List ℕ = replicate 200 0 in
    let short = length-decimal n in
    let first = copy_word-lem w 200 msg 0 zeros 0 58 tail a h refl refl in
    let behind = drop-append w (58 ∷ tail) in
    let second =
      copy_number-lem (decimal n) 200 msg (length w + 1) zeros 0 rest (decimal-All n) (omega arith)
        (drop_next msg (length w) 58 tail behind) in
    let e : 0 + length w ≡ length w = omega arith in
    rw (first, write_block-replicate 200 0 w (omega arith), ◌>>=◌, e)
      (rw (at-drop msg (length w) 58 tail behind, ◌>>=◌)
        (rw (second, write_block-replicate 200 0 (decimal n) (omega arith), ◌>>=◌)))

-- The number in `strnum`, which a NUL follows.
atoi-strnum :
    (n : ℕ) → n < 2 ^ 31 → atoi (decimal n ++ replicate (200 - length (decimal n)) 0) 0 ≡ ok n
atoi-strnum n h =
    let short = length-decimal n in
    let k = 200 - length (decimal n) in
    rw (replicate-head {A = ℕ} k 0 (omega arith)) (atoi-decimal n 0 (replicate (k - 1) 0) h refl)

pub finish-word :
    (w word : List ℕ)
    → length w < 200
    → 200 ≤ length word
    → Returns
        (finish
          (w ++ replicate (200 - length w) 0)
          (decimal (length w) ++ replicate (200 - length (decimal (length w))) 0)
          word)
        (λ r.
          (word' : List ℕ) × (r ≡ some (length w, word'))
          × (take (length w + 1) word' ≡ w ++ 0 ∷ []))
unfolding finish
finish-word w word h room =
    let k = 200 - length w in
    let zeros : List ℕ = replicate (k - 1) 0 in
    let tmp = w ++ 0 ∷ zeros in
    let number = atoi-strnum (length w) (omega arith) in
    let size : 0 + length w ≤ length tmp = omega (arith, length-append w (0 ∷ zeros)) in
    let bytes : read_block tmp 0 (length w) ≡ ok w =
      read_block-lem tmp 0 (length w) size ∙ ap ok (take-append_left w (0 ∷ zeros)) in
    let (ys, written, (len, text)) = write_block-lem word 0 w (omega arith) in
    let inside : length w < length ys = omega (arith, len) in
    let e : 0 + length w ≡ length w = omega arith in
    let next : length w + 1 ≡ suc (length w) = omega arith in
    (
      some (length w, set ys (length w) 0),
      rw (number, ◌>>=◌, replicate-head {A = ℕ} k 0 (omega arith))
          (rw (put-append w 0 zeros 0, ◌>>=◌)
            (rw (bytes, ◌>>=◌) (rw (written, ◌>>=◌) (rw (put-set ys (length w) 0 inside, ◌>>=◌))))),
      (
        set ys (length w) 0,
        refl,
        rw (next, take-set-suc ys (length w) 0 inside) (ap (λ t. t ++ 0 ∷ []) (rw e at text)),
      ),
    )

-- After a word of fewer than 200 bytes, without NUL and colon, and a colon, any number from 200 on
-- that fits an `int` makes `serverReadClientMessage` write outside `tmpword`.
pub read-overflow :
    (w : List ℕ) (n : ℕ) (rest word : List ℕ)
    → IsWord w
    → length w < 200
    → 200 ≤ n
    → n < 2 ^ 31
    → read_client_message (w ++ 58 ∷ (decimal n ++ 0 ∷ rest)) word ≡ fault
unfolding finish
read-overflow w n rest word a h big fits =
    let tmp : List ℕ = w ++ replicate (200 - length w) 0 in
    let size : length tmp ≡ 200 =
      length-append w (replicate (200 - length w) 0)
      ∙ (rw (length-replicate {A = ℕ} (200 - length w) 0) (omega arith)) in
    rw (read-finish w n rest word a h, atoi-strnum n fits, ◌>>=◌)
      (rw (put-fault tmp n 0 (omega arith)))

-- A message of fewer than 200 bytes without a colon is refused: the run does not fault, and neither
-- the word nor the length is written.
pub read-no_colon :
    (w rest word : List ℕ)
    → IsWord w
    → length w < 200
    → read_client_message (w ++ 0 ∷ rest) word ≡ ok none
unfolding read_client_message
read-no_colon w rest word a h =
    let msg = w ++ 0 ∷ rest in
    let zeros : List ℕ = replicate 200 0 in
    let first = copy_word-lem w 200 msg 0 zeros 0 0 rest a h refl refl in
    let e : 0 + length w ≡ length w = omega arith in
    rw (first, write_block-replicate 200 0 w (omega arith), ◌>>=◌, e)
      (rw (at-drop msg (length w) 0 rest (drop-append w (0 ∷ rest)), ◌>>=◌))
