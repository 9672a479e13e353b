-- ===== src/Server/Exchange.antt =====
-- The client's request and the server's reading of it, one after the other.
use dictionary.Base.Block.{
  take-append_left, write_block-replicate, write_block-lem, read_block-lem, take-take,
  take-set_self, take-over, replicate-head,
}
use dictionary.Base.Decimal.{decimal, length-decimal}
use dictionary.Base.{
  ℕ, suc, ◌+◌, ◌-◌, ◌≤◌, ◌<◌, ◌≡◌, sym, ap, ◌∙◌, some, List, [], ◌∷◌, ◌++◌, ok, ◌>>=◌, Returns,
  put-set, set, length, length-append, length-set, replicate, take, arith,
}
use mathlib.Core.List.{append_assoc}
use dictionary.Client.{message, request}
use dictionary.Server.{read_client_message, receive}
use dictionary.Server.Message.{IsWord, read-finish, finish-word}

-- The client's message, where `snprintf` does not cut it.
request-message :
    (junk w : List ℕ)
    → length (message w) < 1024
    → 1024 ≤ length junk
    → request junk w ≡ ok (message w)
unfolding request
request-message junk w h room =
    let text = message w in
    let ended = text ++ 0 ∷ [] in
    let n : length ended ≡ length text + 1 = length-append text (0 ∷ []) in
    let (ys, written, (len, held)) = write_block-lem junk 0 ended (omega arith) in
    let whole = take-over 1023 text (omega arith) in
    let inside : length text < length ys = omega (arith, len) in
    let zs = set ys (length text) 0 in
    let same : take (length text) zs ≡ text =
      take-set_self ys (length text) 0
      ∙ sym (take-take (length text) (0 + length ended) ys (omega arith))
      ∙ ap (take (length text)) held
      ∙ take-append_left text (0 ∷ []) in
    let read = read_block-lem zs 0 (length text) (rw length-set (omega arith)) in
    rw (whole, written, ◌>>=◌) (rw (put-set ys (length text) 0 inside, ◌>>=◌) (read ∙ ap ok same))

received :
    (w : List ℕ)
    → length w < 200
    → (rest : List ℕ) × (receive (message w) ≡ ok (w ++ 58 ∷ (decimal (length w) ++ 0 ∷ rest)))
unfolding receive
received w h =
    let ds = decimal (length w) in
    let short = length-decimal (length w) in
    let n : length (message w) ≡ length w + suc (length ds) = length-append w (58 ∷ ds) in
    let k = 1024 - length (message w) in
    (
      replicate (k - 1) 0,
      write_block-replicate 1024 0 (message w) (omega arith)
          ∙ ap ok (
              append_assoc w (58 ∷ ds) (replicate k 0)
              ∙ ap (λ z. w ++ 58 ∷ (ds ++ z)) (replicate-head {A = ℕ} k 0 (omega arith))),
    )

-- For a word without NUL and colon, of fewer than 200 bytes, the client's message is sent and read
-- without a fault, whatever its buffer held, and the server gets the word, its NUL and its length.
pub exchange :
    (junk w word : List ℕ)
    → IsWord w
    → length w < 200
    → 1024 ≤ length junk
    → 200 ≤ length word
    → Returns (request junk w >>= receive >>= λ msg. read_client_message msg word) (λ r.
      (word' : List ℕ) × (r ≡ some (length w, word')) × (take (length w + 1) word' ≡ w ++ 0 ∷ []))
exchange junk w word a h room wide =
    let short = length-decimal (length w) in
    let n : length (message w) ≡ length w + suc (length (decimal (length w))) =
      length-append w (58 ∷ decimal (length w)) in
    let (rest, got) = received w h in
    let (r, done, p) = finish-word w word h wide in
    (
      r,
      rw (request-message junk w (omega arith) room, ◌>>=◌, got)
          (rw (read-finish w (length w) rest word a h) done),
      p,
    )
