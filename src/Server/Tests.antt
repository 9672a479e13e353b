-- ===== src/Server/Tests.antt =====
-- Messages as the server gets them.
use dictionary.Base.Block.{read_block, write_block}
use dictionary.Base.Decimal.{atoi, decimal}
use dictionary.Base.Text.{codes}
use dictionary.Base.{
  true, ◌+◌, ◌⊎◌, leb, ℕ, ◌≤◌, ◌<◌, ◌≡◌, refl, none, some, List, [], ◌∷◌, ◌++◌, ok, fault, ◌>>=◌,
  Returns, at, put, length, replicate, length-replicate, take, arith,
}
use dictionary.Client.{request}
use dictionary.Server.{copy_word, copy_number, finish, read_client_message, receive}
use dictionary.Eloop.{Eloop, Backend, epoll_backend, evt_read, create, add_event}
use dictionary.Eloop.Max.{create-IsValid}
use dictionary.Server.Accept.{accept, accept_connection, Accepted, accept_connection-Accepted}
use dictionary.Inet.Listen.{accept_non_blocking}
use dictionary.Inet.Tests.{scripted, start}
use dictionary.Server.Exchange.{exchange}
use dictionary.Server.Limit.{limit_loop, max_clients, IsLimit, max_clients-IsLimit}
use dictionary.HtmlGrep.{c_string}
use dictionary.Server.Merriam.{merriam_url, merriam_webster, read_client_message-merriam_url}
use dictionary.Server.Message.{read-overflow}

abbrev cat : List ℕ
cat = codes "cat"

abbrev junk : List ℕ
junk = replicate 8192 170

abbrev word : List ℕ
word = replicate 924 0

junk-room : 1024 ≤ length junk
junk-room = omega (arith, length-replicate {A = ℕ} 8192 170)

word-room : 200 ≤ length word
word-room = omega (arith, length-replicate {A = ℕ} 924 0)

exchange_example :
    Returns
      (request junk cat >>= receive >>= λ msg. read_client_message msg word)
      (λ r. (word' : List ℕ) × (r ≡ some (3, word')) × (take 4 word' ≡ cat ++ 0 ∷ []))
exchange_example =
    exchange junk cat word (refl, (refl, (refl, tt))) (omega arith) junk-room word-room

read-overflow_example : read_client_message (cat ++ 58 ∷ (decimal 200 ++ 0 ∷ [])) word ≡ fault
read-overflow_example =
    read-overflow cat 200 [] word (refl, (refl, (refl, tt))) (omega arith) (omega arith)
      (omega arith)

ab_text : c_string (97 ∷ 98 ∷ 0 ∷ 0 ∷ 0 ∷ []) ≡ ok (codes "ab")
unfolding c_string
ab_text = refl

-- A number that is too large for the word is accepted, and cuts nothing.
longer :
    read_client_message (codes "ab:4" ++ 0 ∷ []) (replicate 5 7)
    ≡ ok (some (4, 97 ∷ 98 ∷ 0 ∷ 0 ∷ 0 ∷ []))
unfolding read_client_message copy_word copy_number finish at put atoi read_block write_block
longer = refl

read_client_message-merriam_url_example :
    (4 < 200)
    × (length (codes "ab") ≤ 4)
    × (merriam_url (codes "ab") ≡ ok (merriam_webster ++ codes "ab"))
read_client_message-merriam_url_example =
    read_client_message-merriam_url (codes "ab:4" ++ 0 ∷ []) (replicate 5 7) 4
      (97 ∷ 98 ∷ 0 ∷ 0 ∷ 0 ∷ []) (codes "ab") longer ab_text

-- A byte that is no digit is refused.
no_digit : read_client_message (codes "ab:x" ++ 0 ∷ []) word ≡ ok none
unfolding read_client_message copy_word copy_number finish at put atoi read_block write_block
no_digit = refl

-- A kernel with a hard limit of 4096, and a soft one of 1024.
hard_limit : max_clients (λ n. leb n 4096) 1024 ≡ some 4096
unfolding max_clients limit_loop
hard_limit = refl

max_clients-IsLimit_example :
    (t : ℕ) × (max_clients (λ n. leb n 4096) 1024 ≡ some t) × IsLimit (λ n. leb n 4096) 10024 1024 t
max_clients-IsLimit_example = max_clients-IsLimit (λ n. leb n 4096) 1024 (omega arith)

-- A kernel that counts its requests, and a loop for three descriptors.
abbrev counting : Backend ℕ ℕ ℕ
counting =
    epoll_backend (record { epoll_ctl = λ k op fd e. (true, k + 1); epoll_wait = λ k n. (none, k) })

abbrev idle_loop : Eloop ℕ ℕ
idle_loop = create (record { mask = evt_read; read = 0; write = 0; content = 0 }) 3

accept_connection-Accepted_example :
    Returns (accept_connection scripted counting 7 0 (start []) 3 4 0 idle_loop evt_read) (λ r.
      ((r.1 ≡ (4, 0, idle_loop)) × ((r.0.opened ≡ 3 ∷ []) ⊎ (r.0.opened ≡ 0 ∷ 3 ∷ [])))
      ⊎ Accepted scripted counting 7 0 (start []) 4 idle_loop evt_read r)
accept_connection-Accepted_example =
    accept_connection-Accepted scripted counting 7 0 (start []) 3 4 0 idle_loop evt_read
      (omega arith) refl (create-IsValid _ 3)

-- The new socket 5 is not below the three places of the loop: it stays open without a client.
accept_leak :
    Returns
      (accept_connection scripted counting 7 0 (start []) 3 4 0 idle_loop evt_read)
      (λ r. (r.0.opened ≡ 5 ∷ 3 ∷ []) × (r.1.0 ≡ 4))
unfolding accept_connection add_event create accept_non_blocking
accept_leak = (_, refl, (refl, refl))

-- The descriptor 3 has no place in the loop: it is not registered.
no_place : (accept counting 7 0 (some 3) 4 0 idle_loop evt_read >>= λ r. ok r.0) ≡ ok 4
unfolding accept add_event create
no_place = refl
