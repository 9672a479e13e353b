-- ===== src/Server/Conversation.antt =====
-- A client's request for a word in the cache and the reply to it, over client.c, server.c, hmap.c,
-- aostr.c and eloop.c.
use dictionary.Base.Block.{read_block-lem}
use dictionary.AoStr.{AoStr, Libc}
use dictionary.AoStr.Append.{IsBuffer, text}
use dictionary.Client.{request}
use dictionary.Eloop.{Mask, without, Eloop, Backend}
use dictionary.Eloop.Max.{IsValid, mask_at}
use dictionary.Eloop.Register.{delete_event-IsValid}
use dictionary.Hmap.{Memory, get}
use dictionary.HtmlGrep.{c_string}
use dictionary.Server.{receive, read_client_message}
use dictionary.Server.Cache.{Cache, Response, word_array, key_type, lookup_client_request}
use dictionary.Server.Exchange.{exchange}
use dictionary.Server.Message.{IsWord}
use dictionary.Server.Reply.{one_less, respond, send_client_reply}
use dictionary.Base.{
  All, Run, ℕ, suc, ◌+◌, ◌≤◌, ◌<◌, ◌≡◌, refl, ap, ◌∙◌, Bool, true, false, some, List, [], ◌∷◌, ◌++◌,
  ok, ◌>>=◌, >>=-eq-ok, Returns, length, length-replicate, replicate, take, ◌==◌, if◌then◌else◌,
  arith,
}

-- A text without NUL
abbrev pub IsPlain : List ℕ → Type 0
IsPlain s = All (λ c. (c == 0) ≡ false) s

IsWord-IsPlain : (w : List ℕ) → IsWord w → IsPlain w
IsWord-IsPlain [] is = tt
IsWord-IsPlain (c ∷ w) is = (ground (arith, is.0), IsWord-IsPlain w is.1)

-- A text with a NUL behind it is read up to there.
pub c_string-plain :
    (w block : List ℕ)
    → IsPlain w
    → take (suc (length w)) block ≡ w ++ 0 ∷ []
    → c_string block ≡ ok w
unfolding c_string
c_string-plain [] [] is e = cc
c_string-plain [] (b ∷ bs) is e =
    let nul : b ≡ 0 = cc in let test : (b == 0) ≡ true = ground arith in rw (c_string, test)
c_string-plain (c ∷ w) [] is e = cc
c_string-plain (c ∷ w) (b ∷ bs) is e =
    let same : b ≡ c = cc in
    let rest : take (suc (length w)) bs ≡ w ++ 0 ∷ [] = cc in
    let test : (b == 0) ≡ false = rw same (is.0) in
    rw (c_string, test) (rw (c_string-plain w bs is.1 rest, ◌>>=◌) (ap (λ x. ok (x ∷ w)) same))

module _ (libc : Libc) (mem : Memory) (consult : List ℕ → Run (Response libc mem))
    (sortstring : AoStr → AoStr → Bool) (fuel : ℕ) (memory : Bool) (takes : List ℕ → Bool) where
  lookup-cached :
      (w : List ℕ) (cache : Cache) (d : AoStr)
      → get (key_type w) cache word_array ≡ ok (some d)
      → lookup_client_request libc mem consult sortstring fuel memory w cache ≡ ok (some d, cache)
  unfolding lookup_client_request
  lookup-cached w cache d cached = rw (cached, ◌>>=◌)

  respond-cached :
      (bytes msg w word : List ℕ) (cache : Cache) (d : AoStr)
      → receive bytes ≡ ok msg
      → read_client_message msg (replicate 924 0) ≡ ok (some (length w, word))
      → c_string word ≡ ok w
      → get (key_type w) cache word_array ≡ ok (some d)
      → IsBuffer d
      → 0 < d.len
      → takes (text d) ≡ true
      → respond libc mem consult sortstring fuel memory takes (some bytes) cache
        ≡ ok (text d, cache)
  unfolding respond
  respond-cached bytes msg w word cache d received read_it is_word cached is filled taken =
      let found = lookup-cached w cache d cached in
      let some_text : (d.len == 0) ≡ false = ground arith in
      let sent = read_block-lem d.block 0 d.len (omega (arith, is.backed, is.within)) in
      rw (received, ◌>>=◌)
        (rw (read_it, ◌>>=◌)
          (rw (is_word, ◌>>=◌) (rw (found, ◌>>=◌) (rw some_text (rw (sent, ◌>>=◌) (rw taken))))))

  module _ {C D K : Type 0} (backend : Backend C D K) where
    -- A client asks, from an array of 1024 bytes or more, for a word without NUL and colon, of fewer
    -- than 200 bytes, for which `hmapGet` on the
    -- cache gives a well-formed definition that is not empty: on a loop whose `max` is the highest
    -- registered descriptor, and where `write` takes the whole text, `serverSendClientReply` does not fault, writes the text of the
    -- definition, counts one client less, takes the mask's flags from the connection and no other flags,
    -- keeps `max` so, and leaves the cache as it is, whatever the page and the sort would have given.
    pub send_client_reply-cached :
        (junk w : List ℕ) (cache : Cache) (d : AoStr)
        → (clients : ℕ) (k : K) (el : Eloop C D) (fd : ℕ) (mask : Mask) → IsWord w
        → length w < 200
        → 1024 ≤ length junk
        → get (key_type w) cache word_array ≡ ok (some d)
        → IsBuffer d
        → 0 < d.len
        → takes (text d) ≡ true
        → IsValid el
        → Returns
            (request junk w >>= λ bytes.
              send_client_reply libc mem consult sortstring fuel memory takes backend
                (some bytes)
                clients
                k
                el
                fd
                mask
                cache)
            (λ r.
              (r.0 ≡ text d)
              × (r.1 ≡ one_less clients)
              × IsValid r.3
              × ((j : ℕ)
                  → mask_at r.3.idle j
                    ≡ (if fd == j then without (mask_at el.idle j) mask else mask_at el.idle j))
              × (r.4 ≡ cache))
    unfolding send_client_reply
    send_client_reply-cached junk w cache d clients k el fd mask is_word short room cached is filled
          taken valid =
        let wide : 200 ≤ length (replicate {A = ℕ} 924 0) =
          omega (arith, length-replicate {A = ℕ} 924 0) in
        let (r, run, (word, is_r, held)) =
          exchange junk w (replicate 924 0) is_word short room wide in
        let (msg, got, read_it) = >>=-eq-ok (request junk w >>= receive) _ run in
        let (bytes, asked, received) = >>=-eq-ok (request junk w) receive got in
        let e : length w + 1 ≡ suc (length w) = omega arith in
        let named = c_string-plain w word (IsWord-IsPlain w is_word) (rw e at held) in
        let answered =
          respond-cached bytes msg w word cache d received (read_it ∙ ap ok is_r) named cached is
            filled taken in
        let ((k', el'), deleted, (valid', flags)) =
          delete_event-IsValid backend k el fd mask valid in
        (
          (text d, one_less clients, k', el', cache),
          rw (asked, ◌>>=◌) (rw (answered, ◌>>=◌) (rw (deleted, ◌>>=◌))),
          (refl, refl, valid', flags, refl),
        )
