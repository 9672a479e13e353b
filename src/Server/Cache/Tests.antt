-- ===== src/Server/Cache/Tests.antt =====
-- A cached definition found again, by its own word and by another.
use dictionary.Base.Text.{codes, bytes_eq}
use dictionary.AoStr.{AoStr}
use dictionary.Hmap.{find, get_entry, get, Memory}
use dictionary.Hmap.Hash.{hash_string, hash_loop, sign_extend, str_cmp}
use dictionary.Server.Cache.{word_array, key_type, Cache, lookup_client_request}
use dictionary.AoStr.Append.{text}
use dictionary.AoStr.Tests.{zeros}
use dictionary.Client.{request}
use dictionary.Eloop.{Evt, Backend, epoll_backend, evt_read, without, create}
use dictionary.Eloop.Max.{IsValid, mask_at, create-IsValid}
use dictionary.Server.Conversation.{send_client_reply-cached}
use dictionary.Server.Reply.{one_less, send_client_reply}
use dictionary.Client.{find_definition}
use dictionary.Inet.Connect.{inet_connect}
use dictionary.Inet.Tests.{scripted, start}
use dictionary.Server.Answer.{answered_by, find_definition-cached}
use dictionary.Base.{
  ℕ, ◌+◌, ◌≡◌, refl, ok, ◌>>=◌, Returns, replicate, length-replicate, ◌==◌, if◌then◌else◌, arith,
  true, false, Option, some, none, List, [], ◌∷◌, Run, at,
}

abbrev definition : AoStr
definition = record { block = codes "a lava"; offset = 0; len = 6; capacity = 6 }

-- A table of one bucket, with what the lookup of "Aa" adds.
abbrev cached : Cache
cached = record {
  entries = (record { key = word_array; value = definition; hash = 2112 } ∷ []) ∷ [];
  size = 1;
  capacity = 1;
  mask = 0;
  rebuild_threshold = 100;
  fixed_size = false;
}

abbrev memory : Memory
memory = record { struct = true; table = true; entry = true }

hash : hash_string (codes "Aa") ≡ 2112
unfolding hash_string hash_loop sign_extend
hash = refl

abbrev look_up : List ℕ → Run (Option AoStr × Cache)
look_up word = lookup_client_request zeros memory (λ w. ok none) (λ a b. true) 9 true word cached

again : look_up (codes "Aa") ≡ ok (some definition, cached)
unfolding lookup_client_request get get_entry find str_cmp bytes_eq hash_string hash_loop
    sign_extend at
again = refl

-- "BB" has the same hash, and the key is the array that now holds "BB".
another : look_up (codes "BB") ≡ ok (some definition, cached)
unfolding lookup_client_request get get_entry find str_cmp bytes_eq hash_string hash_loop
    sign_extend at
another = refl

found : get (key_type (codes "Aa")) cached word_array ≡ ok (some definition)
unfolding get get_entry find str_cmp bytes_eq hash_string hash_loop sign_extend at
found = refl

-- A kernel that takes every request and has no events, and a loop on it.
abbrev quiet : Backend ℕ ℕ ℕ
quiet =
    epoll_backend
      (record { epoll_ctl = λ k op fd e. (true, k + 1); epoll_wait = λ k n. (some [], k) })

abbrev idle : Evt ℕ ℕ
idle = record { mask = evt_read; read = 0; write = 0; content = 0 }

send_client_reply-cached_example :
    Returns
      (request (replicate 8192 170) (codes "Aa") >>= λ bytes.
        send_client_reply zeros memory
          (λ w. ok none)
          (λ a b. true)
          9
          true
          (λ s. true)
          quiet
          (some bytes)
          3
          0
          (create idle 8)
          5
          evt_read
          cached)
      (λ r.
        (r.0 ≡ text definition)
        × (r.1 ≡ one_less 3)
        × IsValid r.3
        × ((j : ℕ)
            → mask_at r.3.idle j ≡ (
                if 5 == j
                then without (mask_at (create idle 8).idle j) evt_read
                else mask_at (create idle 8).idle j))
        × (r.4 ≡ cached))
send_client_reply-cached_example =
    send_client_reply-cached zeros memory (λ w. ok none) (λ a b. true) 9 true (λ s. true) quiet
      (replicate 8192 170) (codes "Aa") cached definition 3 0 (create idle 8) 5 evt_read
      (refl, (refl, tt)) (omega arith) (omega (arith, length-replicate {A = ℕ} 8192 170)) found
      (record { backed = omega arith; slack = omega arith; within = omega arith }) (omega arith)
      refl (create-IsValid idle 8)

-- The client's connection to the scripted kernel
connected :
    inet_connect scripted (start []) none 5050 false
    ≡ ok (5, record { kernel = (6, []); opened = 5 ∷ 3 ∷ []; infos = 0 })
unfolding inet_connect
connected = refl

find_definition-cached_example :
    find_definition scripted
      (start [])
      (answered_by zeros memory
        (λ w. ok none)
        (λ a b. true)
        9
        true
        (λ s. true)
        quiet
        3
        0
        (create idle 8)
        5
        evt_read
        cached)
      (replicate 8192 170)
      (replicate 8192 170)
      (codes "Aa")
    ≡ ok (some (text definition), record { kernel = (6, []); opened = 5 ∷ 3 ∷ []; infos = 0 })
find_definition-cached_example =
    find_definition-cached zeros memory (λ w. ok none) (λ a b. true) 9 true (λ s. true) quiet
      scripted (start []) (record { kernel = (6, []); opened = 5 ∷ 3 ∷ []; infos = 0 }) 5
      (replicate 8192 170) (replicate 8192 170) (codes "Aa") cached definition 3 0 (create idle 8) 5
      evt_read connected refl (refl, (refl, tt)) (omega arith)
      (omega (arith, length-replicate {A = ℕ} 8192 170)) found
      (record { backed = omega arith; slack = omega arith; within = omega arith }) (omega arith)
      refl (refl, (refl, (refl, (refl, (refl, (refl, tt))))))
      (omega (arith, length-replicate {A = ℕ} 8192 170)) (create-IsValid idle 8)
