-- ===== src/Server.antt =====
-- The daemon of server.c: how it reads a client's message. Accept models how it accepts a client, Limit
-- how many clients it admits, Cache how it looks a word up, and Reply how it replies.
pub mod Message
pub mod Exchange
pub mod Limit
pub mod Accept
pub mod Cache
pub mod Reply
pub mod Conversation
pub mod Merriam
pub mod Start
pub mod Answer
mod Tests
use dictionary.Base.Block.{read_block, write_block}
use dictionary.Base.Decimal.{is_digit, atoi}
use dictionary.Base.{
  ℕ, zero, suc, ◌+◌, ◌-◌, ◌*◌, Bool, true, false, ◌||◌, Option, none, some, List, [], ◌∷◌, Run, ok,
  ◌>>=◌, at, put, replicate, ltb, leb, ◌==◌, if◌then◌else◌,
}

-- The first loop of `serverReadClientMessage`, with `n` places left in `tmpword`; it gives `ptr` and
-- the array.
unfoldable pub copy_word : ℕ → List ℕ → ℕ → List ℕ → ℕ → Run (ℕ × List ℕ)
copy_word zero msg ptr tmpword i = ok (ptr, tmpword)
copy_word (suc n) msg ptr tmpword i = at msg ptr >>= λ c. elim (c == 58 || c == 0) [
  | true ↦ ok (ptr, tmpword)
  | false ↦ put tmpword i c >>= λ tmpword'. copy_word n msg (ptr + 1) tmpword' (i + 1)
]

-- The second loop, which returns SERVER_ERR from `serverReadClientMessage` at a byte that is no
-- digit.
unfoldable pub copy_number : ℕ → List ℕ → ℕ → List ℕ → ℕ → Run (Option (List ℕ))
copy_number zero msg ptr strnum i = ok (some strnum)
copy_number (suc n) msg ptr strnum i = at msg ptr >>= λ c. elim (c == 0) [
  | true ↦ ok (some strnum)
  | false ↦ elim (is_digit c) [
    | false ↦ ok none
    | true ↦ put strnum i c >>= λ strnum'. copy_number n msg (ptr + 1) strnum' (i + 1)
  ]
]

-- The end of `serverReadClientMessage`, from `atoi` on.
unfoldable pub finish : List ℕ → List ℕ → List ℕ → Run (Option (ℕ × List ℕ))
finish tmpword strnum word = do
  len ← atoi strnum 0
  tmpword' ← put tmpword len 0
  bytes ← read_block tmpword' 0 len
  word' ← write_block word 0 bytes
  word'' ← put word' len 0
  ok (some (len, word''))

-- `serverReadClientMessage`: nothing for SERVER_ERR, which leaves `*len` and `word` alone, and
-- what `*len` and `word` become for SERVER_OK.
unfoldable pub read_client_message : List ℕ → List ℕ → Run (Option (ℕ × List ℕ))
read_client_message msg word = do
  (ptr, tmpword) ← copy_word 200 msg 0 (replicate 200 0) 0
  c ← at msg ptr
  if c == 0 then ok none else (do
    number ← copy_number 200 msg (ptr + 1) (replicate 200 0) 0
    elim number [ none ↦ ok none | some strnum ↦ finish tmpword strnum word ])

-- `msg` of `serverSendClientReply` after its `read`, of at most MAX_MSG bytes.
unfoldable pub receive : List ℕ → Run (List ℕ)
receive bytes = write_block (replicate 1024 0) 0 bytes
