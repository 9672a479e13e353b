-- ===== src/Server/Answer.antt =====
-- A client and the server together, from the word that is asked for to the text that is printed.
use dictionary.AoStr.{AoStr, Libc}
use dictionary.AoStr.Append.{IsBuffer, text}
use dictionary.Base.Block.{write_block-lem, take-set-suc}
use dictionary.Client.{request, print_reply, find_definition}
use dictionary.Eloop.{Mask, Eloop, Backend}
use dictionary.Eloop.Max.{IsValid}
use dictionary.Hmap.{Memory, get}
use dictionary.Inet.{Sockets, World}
use dictionary.Inet.Connect.{inet_connect}
use dictionary.Server.Cache.{Cache, Response, key_type, word_array}
use dictionary.Server.Conversation.{IsPlain, c_string-plain, send_client_reply-cached}
use dictionary.Server.Message.{IsWord}
use dictionary.Server.Reply.{send_client_reply}
use dictionary.Base.{
  ℕ, ◌+◌, ◌<◌, ◌≤◌, ◌≡◌, ap, ◌∙◌, Bool, true, false, Option, none, some, List, [], ◌∷◌, ◌++◌, ok,
  ◌>>=◌, >>=-eq-ok, Run, put-set, set, length, ◌==◌, arith,
}

-- A reply without NUL that fits the client's array is printed as it is.
print_reply-plain :
    (buf bytes : List ℕ)
    → IsPlain bytes
    → length bytes < length buf
    → print_reply buf (some bytes) ≡ ok bytes
unfolding print_reply
print_reply-plain buf bytes plain room =
    let n = length bytes in
    let (ys, written, (len, held)) = write_block-lem buf 0 bytes (omega arith) in
    let inside : n < length ys = omega (arith, len) in
    let e : 0 + n ≡ n = omega arith in
    let whole = take-set-suc ys n 0 inside ∙ ap (λ t. t ++ 0 ∷ []) (rw e at held) in
    rw (written, ◌>>=◌)
      (rw (put-set ys n 0 inside, ◌>>=◌) (c_string-plain bytes (set ys n 0) plain whole))

find_run :
    {K A : Type 0} (os : Sockets K A) (w w' : World K)
    (wire : List ℕ → Run (Option (Option (List ℕ)))) (msg buf word sent bytes text : List ℕ)
    (sockfd : ℕ)
    → request msg word ≡ ok sent
    → inet_connect os w none 5050 false ≡ ok (sockfd, w')
    → (sockfd == 0) ≡ false
    → wire sent ≡ ok (some (some bytes))
    → print_reply buf (some bytes) ≡ ok text
    → find_definition os w wire msg buf word ≡ ok (some text, w')
unfolding find_definition
find_run os w w' wire msg buf word sent bytes text sockfd asked connected valid answered printed =
    rw (asked, ◌>>=◌)
      (rw (connected, ◌>>=◌) (rw valid (rw (answered, ◌>>=◌) (rw (printed, ◌>>=◌)))))

module _ (libc : Libc) (mem : Memory) (consult : List ℕ → Run (Response libc mem))
    (sortstring : AoStr → AoStr → Bool) (fuel : ℕ) (memory : Bool) (takes : List ℕ → Bool)
    {C D K : Type 0} (backend : Backend C D K) where
  -- The server at the other end of the socket, for one client, whose one `read` gets the whole reply
  abbrev pub answered_by :
      (clients : ℕ)
      → K
      → Eloop C D
      → (fd : ℕ) → Mask
      → Cache
      → List ℕ
      → Run (Option (Option (List ℕ)))
  answered_by clients k el fd mask cache bytes =
      send_client_reply libc mem consult sortstring fuel memory takes backend (some bytes) clients k
        el fd mask cache
      >>= λ r. ok (some (some r.0))

  -- For a word without NUL and colon, of fewer than 200 bytes, asked for from an array of 1024 bytes or
  -- more, for which the server's cache has a
  -- well-formed definition that is not empty, without NUL, and shorter than the client's array, on a
  -- server whose loop has its highest registered descriptor as `max`: where `inetConnect` gives a
  -- socket, the server's `write` takes the whole text and the client's one `read` gets all of it,
  -- `clientFindDefinition`, with `serverSendClientReply` behind the socket, does not fault and prints the text of the definition.
  pub find_definition-cached :
      {N A : Type 0} (os : Sockets N A) (w w' : World N) (sockfd : ℕ) (msg buf word : List ℕ)
      (cache : Cache) (d : AoStr) (clients : ℕ) (k : K) (el : Eloop C D) (fd : ℕ) (mask : Mask)
      → inet_connect os w none 5050 false ≡ ok (sockfd, w')
      → (sockfd == 0) ≡ false
      → IsWord word
      → length word < 200
      → 1024 ≤ length msg
      → get (key_type word) cache word_array ≡ ok (some d)
      → IsBuffer d
      → 0 < d.len
      → takes (text d) ≡ true
      → IsPlain (text d)
      → length (text d) < length buf
      → IsValid el
      → find_definition os w (answered_by clients k el fd mask cache) msg buf word
        ≡ ok (some (text d), w')
  find_definition-cached os w w' sockfd msg buf word cache d clients k el fd mask connected valid
        is_word short room cached is filled taken plain fits busy =
      let (r, run, (sent, _, _, _, _)) =
        send_client_reply-cached libc mem consult sortstring fuel memory takes backend msg word
          cache d clients k el fd mask is_word short room cached is filled taken busy in
      let (bytes, asked, answered) = >>=-eq-ok (request msg word) _ run in
      let printed = print_reply-plain buf (text d) plain fits in
      find_run os w w' (answered_by clients k el fd mask cache) msg buf word bytes (text d) (text d)
        sockfd asked connected valid (rw (answered, ◌>>=◌) (ap (λ t. ok (some (some t))) sent))
        printed
