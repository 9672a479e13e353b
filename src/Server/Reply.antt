-- ===== src/Server/Reply.antt =====
-- serverSendClientReply, from what `read` gave to the closing of the connection.
use dictionary.Base.Block.{read_block}
use dictionary.Base.Int.{ℤ, pos, negsuc}
use dictionary.Base.Text.{codes}
use dictionary.AoStr.{AoStr, Libc}
use dictionary.Eloop.{Mask, Eloop, Backend, delete_event}
use dictionary.Hmap.{Memory}
use dictionary.HtmlGrep.{c_string}
use dictionary.Server.{receive, read_client_message}
use dictionary.Server.Cache.{Cache, Response, lookup_client_request}
use dictionary.Base.{
  ℕ, zero, suc, Bool, Option, none, some, List, [], Run, ok, fault, ◌>>=◌, replicate, ◌==◌,
  if◌then◌else◌,
}

-- `server.clientcount--`
abbrev pub one_less : ℕ → ℤ
one_less zero = negsuc 0
one_less (suc n) = pos n

module _ (libc : Libc) (mem : Memory) (consult : List ℕ → Run (Response libc mem))
    (sortstring : AoStr → AoStr → Bool) (fuel : ℕ) (memory : Bool) (takes : List ℕ → Bool) where
  -- What is handed to `write` for a request, nothing where `read` failed, and the cache. `takes` tells
  -- whether `write` takes all of it: where it does not take a definition, the message that is printed
  -- has `server.pid` for `%s`, which is undefined.
  unfoldable pub respond : Option (List ℕ) → Cache → Run (List ℕ × Cache)
  respond none cache = ok ([], cache)
  respond (some bytes) cache = receive bytes >>= λ msg.
      read_client_message msg (replicate 924 0) >>= λ request. elim request [
        | none ↦ ok ([], cache)
        | some (len, word) ↦ c_string word >>= λ text.
            lookup_client_request libc mem consult sortstring fuel memory text cache
            >>= λ (response, cache'). elim response [
              | none ↦ ok (codes "Failed to find word", cache')
              | some r ↦
                  if r.len == 0
                  then ok ([], cache')
                  else (read_block r.block 0 r.len >>= λ sent.
                      if takes sent then ok (sent, cache') else fault)
            ]
      ]

  -- `serverSendClientReply`: what is written, `clientcount`, the kernel, the loop and the cache
  unfoldable pub send_client_reply :
      {C D K : Type 0}
      → Backend C D K
      → Option (List ℕ)
      → (clients : ℕ) → K
      → Eloop C D
      → (fd : ℕ) → Mask
      → Cache
      → Run (List ℕ × ℤ × K × Eloop C D × Cache)
  send_client_reply backend bytes clients k el fd mask cache =
      respond bytes cache >>= λ (sent, cache'). delete_event backend k el fd mask >>= λ (k', el').
      ok (sent, one_less clients, k', el', cache')
