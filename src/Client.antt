-- ===== src/Client.antt =====
-- clientFindDefinition of client.c: the message it sends, and the reply it prints.
use dictionary.Base.Block.{read_block, write_block}
use dictionary.Base.Decimal.{decimal}
use dictionary.Base.{
  ℕ, false, Option, none, some, List, [], ◌∷◌, ◌++◌, Run, ok, fault, ◌>>=◌, put, length, take, ◌==◌,
  if◌then◌else◌,
}
use dictionary.HtmlGrep.{c_string}
use dictionary.Inet.{Sockets, World, close_fd}
use dictionary.Inet.Connect.{inet_connect}

-- `"%s:%d"`
abbrev pub message : List ℕ → List ℕ
message word = word ++ 58 ∷ decimal (length word)

-- The bytes that `write` sends, where `msg` holds `junk` at first: `snprintf` cuts its text to
-- MAX_MSG, and `len` is the length of the uncut text.
unfoldable pub request : List ℕ → List ℕ → Run (List ℕ)
request junk word =
    let text = message word in
    let len = length text in
    do
      msg ← write_block junk 0 (take 1023 text ++ 0 ∷ [])
      msg' ← put msg len 0
      read_block msg' 0 len

-- What `printf` shows of `buf`, which holds `junk` at first, after its `read`, nothing where that
-- fails: `buf[rbytes]` is then in front of the array.
unfoldable pub print_reply : List ℕ → Option (List ℕ) → Run (List ℕ)
print_reply junk none = fault
print_reply junk (some bytes) = do
  buf ← write_block junk 0 bytes
  buf' ← put buf (length bytes) 0
  c_string buf'

module _ {K A : Type 0} (os : Sockets K A) where
  -- `clientFindDefinition`: the text that it prints, nothing where it ends the program. `wire` is the
  -- server behind the socket: nothing where `write` fails, and otherwise what `read` gives.
  unfoldable pub find_definition :
      World K
      → (wire : List ℕ → Run (Option (Option (List ℕ)))) → (msg buf word : List ℕ)
      → Run (Option (List ℕ) × World K)
  unfolding request print_reply
  find_definition w wire msg buf word = do
    sent ← request msg word
    (sockfd, w') ← inet_connect os w none 5050 false
    if sockfd == 0 then ok (none, w') else (do
      answer ← wire sent
      elim answer [
        | none ↦ ok (none, close_fd os w' sockfd)
        | some bytes ↦ print_reply buf bytes >>= λ text. ok (some text, w')
      ])
