-- ===== src/Server/Merriam.antt =====
-- serverConsultMerriam of server.c, and why the address of a page fits its array whatever a client sends.
use dictionary.AoStr.{AoStr, Libc}
use dictionary.Base.Decimal.{atoi}
use dictionary.Base.Block.{read_block, write_block}
use dictionary.Base.Text.{codes}
use dictionary.Hmap.{Memory}
use dictionary.HtmlGrep.{c_string}
use dictionary.Http.{Performed, curl_http_get}
use dictionary.Server.{copy_word, copy_number, finish, read_client_message}
use dictionary.Server.Cache.{Response}
use dictionary.Base.{
  ℕ, zero, suc, ◌+◌, ◌<◌, ◌≤◌, ◌≡◌, refl, ◌∙◌, Bool, true, ◌||◌, Option, none, some, List, [], ◌∷◌,
  ◌++◌, Run, ok, fault, ◌>>=◌, >>=-eq-ok, at, put, put-fault, put-set, set, length, length-set,
  length-append, replicate, length-replicate, ltb, leb, ◌==◌, if◌then◌else◌, Bool-cases, inl, inr,
  arith,
}

-- "https://www.merriam-webster.com/dictionary" and a slash
abbrev pub merriam_webster : List ℕ
merriam_webster = codes "https://www.merriam-webster.com/dictionary/"

-- `url` of `serverConsultMerriam`, and the write of the NUL behind all that `snprintf` would have
-- written: the array has 500 bytes.
unfoldable pub merriam_url : List ℕ → Run (List ℕ)
merriam_url word =
    let url = merriam_webster ++ word in if ltb (length url) 500 then ok url else fault

module _ (libc : Libc) (mem : Memory) (memory : Bool) (web : List ℕ → Option Performed)
    (parse : AoStr → Option (List (List ℕ))) where
  -- `serverConsultMerriam`, with the web as a parameter, and what libxml2 finds in the body, which is
  -- NULL until it is set: `htmlGetMatches` follows that pointer.
  unfoldable pub consult_merriam : List ℕ → Run (Response libc mem)
  unfolding merriam_url
  consult_merriam word = merriam_url word >>= λ url. curl_http_get libc memory (web url) >>= λ resp.
      elim resp [
        | none ↦ ok none
        | some r ↦ elim r.body [
          | none ↦ ok (some (r.status_code, none))
          | some body ↦ ok (some (r.status_code, parse body))
        ]
      ]

put-inside : (xs : List ℕ) (i v : ℕ) (ys : List ℕ) → put xs i v ≡ ok ys → i < length xs
put-inside xs i v ys e = elim (Bool-cases (leb (length xs) i)) [
  | inl out ↦ let bad = put-fault xs i v (ground arith) in absurd cc
  | inr inside ↦ ground arith
]

length-put : (xs : List ℕ) (i v : ℕ) (ys : List ℕ) → put xs i v ≡ ok ys → length ys ≡ length xs
length-put xs i v ys e =
    let e' = put-set xs i v (put-inside xs i v ys e) in
    let same : ys ≡ set xs i v = cc in rw same (length-set xs i v)

at-put : (xs : List ℕ) (i v : ℕ) (ys : List ℕ) → put xs i v ≡ ok ys → at ys i ≡ ok v
unfolding put at
at-put [] i v ys e = cc
at-put (x ∷ xs) zero v ys e = let same : ys ≡ v ∷ xs = cc in rw same refl
at-put (x ∷ xs) (suc i) v ys e =
    let (zs, run, last) = >>=-eq-ok (put xs i v) (λ zs. ok (x ∷ zs)) e in
    let same : ys ≡ x ∷ zs = cc in rw same (at-put xs i v zs run)

length-copy_word :
    (n : ℕ) (msg : List ℕ) (ptr : ℕ) (tmp : List ℕ) (i p : ℕ) (tmp' : List ℕ)
    → copy_word n msg ptr tmp i ≡ ok (p, tmp')
    → length tmp' ≡ length tmp
unfolding copy_word
length-copy_word zero msg ptr tmp i p tmp' e = let same : tmp' ≡ tmp = cc in rw same refl
length-copy_word (suc n) msg ptr tmp i p tmp' e =
    let (c, read, rest) = >>=-eq-ok (at msg ptr) _ e in
    elim (Bool-cases (c == 58 || c == 0)) [
      | inl stop ↦ let e' = rw stop at rest in let same : tmp' ≡ tmp = cc in rw same refl
      | inr more ↦
          let (tmp1, stored, next) = >>=-eq-ok (put tmp i c) _ (rw more at rest) in
          length-copy_word n msg (ptr + 1) tmp1 (i + 1) p tmp' next ∙ length-put tmp i c tmp1 stored
    ]

-- A text that ends at a NUL is no longer than what stands before it.
c_string-length :
    (xs : List ℕ) (k : ℕ) (s : List ℕ) → at xs k ≡ ok 0 → c_string xs ≡ ok s → length s ≤ k
unfolding c_string at
c_string-length [] k s a e = cc
c_string-length (x ∷ xs) zero s a e =
    let zero_byte : x ≡ 0 = cc in
    let stop : (x == 0) ≡ true = ground arith in
    let e' = rw (c_string, stop) at e in let same : s ≡ [] = cc in rw same (omega arith)
c_string-length (x ∷ xs) (suc k) s a e = elim (Bool-cases (x == 0)) [
  | inl stop ↦ let e' = rw (c_string, stop) at e in let same : s ≡ [] = cc in rw same (omega arith)
  | inr more ↦
      let (t, rest, last) = >>=-eq-ok (c_string xs) _ (rw (c_string, more) at e) in
      let same : s ≡ x ∷ t = cc in rw same (omega (arith, c_string-length xs k t a rest))
]

moved : (n len : ℕ) (xs ys : List ℕ) → n ≡ len → xs ≡ ys → at xs n ≡ ok 0 → at ys len ≡ ok 0
moved n len xs ys e f h = rw (e, f) at h

-- What `serverReadClientMessage` ends with: a length below the array's, and a NUL behind the word.
finish-bounds :
    (tmp str word : List ℕ) (len : ℕ) (word' : List ℕ)
    → finish tmp str word ≡ ok (some (len, word'))
    → (len < length tmp) × (at word' len ≡ ok 0)
unfolding finish
finish-bounds tmp str word len word' e =
    let (n, number, e1) = >>=-eq-ok (atoi str 0) _ e in
    let (tmp', stored, e2) = >>=-eq-ok (put tmp n 0) _ e1 in
    let (bytes, got, e3) = >>=-eq-ok (read_block tmp' 0 n) _ e2 in
    let (word1, written, e4) = >>=-eq-ok (write_block word 0 bytes) _ e3 in
    let (word2, ended, e5) = >>=-eq-ok (put word1 n 0) _ e4 in
    let same_len : n ≡ len = cc in
    let same_word : word2 ≡ word' = cc in
    let inside = put-inside tmp n 0 tmp' stored in
    let nul = at-put word1 n 0 word2 ended in
    (omega arith, moved n len word2 word' same_len same_word nul)

read-bounds :
    (msg word : List ℕ) (len : ℕ) (word' : List ℕ)
    → read_client_message msg word ≡ ok (some (len, word'))
    → (len < 200) × (at word' len ≡ ok 0)
unfolding read_client_message
read-bounds msg word len word' e =
    let ((ptr, tmp), copied, e1) = >>=-eq-ok (copy_word 200 msg 0 (replicate 200 0) 0) _ e in
    let (c, read, e2) = >>=-eq-ok (at msg ptr) _ e1 in
    let size =
      length-copy_word 200 msg 0 (replicate 200 0) 0 ptr tmp copied
      ∙ length-replicate {A = ℕ} 200 0 in
    elim (Bool-cases (c == 0)) [
      | inl stop ↦ let e3 = rw stop at e2 in cc
      | inr more ↦
          let (number, numbered, e3) =
            >>=-eq-ok (copy_number 200 msg (ptr + 1) (replicate 200 0) 0) _ (rw more at e2) in
          go number tmp size e3
    ]
  where
    go :
        (number : Option (List ℕ)) (tmp : List ℕ)
        → length tmp ≡ 200
        → (elim number [ none ↦ ok none | some strnum ↦ finish tmp strnum word ])
          ≡ ok (some (len, word'))
        → (len < 200) × (at word' len ≡ ok 0)
    go none tmp size e = cc
    go (some str) tmp size e =
        let (inside, ended) = finish-bounds tmp str word len word' e in (omega arith, ended)

-- Whatever a client sends, if `serverReadClientMessage` accepts it without a fault, the length it
-- gives is below 200, the word it leaves is no longer, and the address that `serverConsultMerriam`
-- makes of the word fits its array and is not cut.
pub read_client_message-merriam_url :
    (msg word : List ℕ) (len : ℕ) (word' s : List ℕ)
    → read_client_message msg word ≡ ok (some (len, word'))
    → c_string word' ≡ ok s
    → (len < 200) × (length s ≤ len) × (merriam_url s ≡ ok (merriam_webster ++ s))
unfolding merriam_url
read_client_message-merriam_url msg word len word' s e text =
    let (small, ended) = read-bounds msg word len word' e in
    let short = c_string-length word' len s ended text in
    let size : length (merriam_webster ++ s) ≡ 43 + length s = length-append merriam_webster s in
    let fits : ltb (length (merriam_webster ++ s)) 500 ≡ true = ground arith in
    (small, short, rw fits refl)
