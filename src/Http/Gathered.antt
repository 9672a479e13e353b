-- ===== src/Http/Gathered.antt =====
-- What curlHttpGet makes of a page that arrives.
use Prim.Native.Nat.{◌*◌}
use mathlib.Core.List.{append_assoc, append-nil}
use dictionary.AoStr.{AoStr, Libc, u32, alloc}
use dictionary.AoStr.Append.{IsLibc, Finds, IsBuffer, text, cat_len-append}
use dictionary.AoStr.Edit.{alloc_lem}
use dictionary.AoStr.Escape.Grow.{cat_len-capacity}
use dictionary.AoStr.Mime.{matches_at}
use dictionary.Base.Text.{codes}
use dictionary.Http.{
  ContentType, json, html, text as plain, invalid, Performed, create_response, get_content_type,
  write_callback, curl_http_get,
}
use dictionary.Base.{
  ℕ, ◌+◌, ◌%◌, ◌^◌, ◌<◌, ◌≡◌, refl, sym, ap, ◌∙◌, Bool, true, false, Option, some, List, [], ◌∷◌,
  ◌++◌, ok, ◌>>=◌, Returns, length, All, drop, at-drop, drop_next, flatten, ◌==◌, if◌then◌else◌,
  Bool-cases, inl, inr, arith,
}

-- `p` is the beginning of `s`.
abbrev pub begins : List ℕ → List ℕ → Bool
begins [] s = true
begins (c ∷ p) [] = false
begins (c ∷ p) (b ∷ s) = if c == b then begins p s else false

-- The kind of a page, by the beginning of its content type
abbrev pub kind_of : List ℕ → ContentType
kind_of s =
    if begins (codes "application/json") s
    then json
    else if begins (codes "text/html") s
    then html
    else if begins (codes "text") s
    then plain
    else invalid

-- No NUL inside
abbrev c_text : List ℕ → Bool
c_text [] = true
c_text (c ∷ p) = if c == 0 then false else c_text p

c_text-cons : (c : ℕ) (p : List ℕ) → c_text (c ∷ p) ≡ true → ((c == 0) ≡ false) × (c_text p ≡ true)
c_text-cons c p h = elim (Bool-cases (c == 0)) [
  | inl e ↦ let bad : false ≡ true = rw e at h in cc
  | inr ne ↦ (ne, rw ne at h)
]

matches_at-begins :
    (p s : List ℕ) (block : List ℕ) (i : ℕ) (rest : List ℕ)
    → c_text p ≡ true
    → drop i block ≡ s ++ 0 ∷ rest
    → matches_at block i p ≡ ok (begins p s)
unfolding matches_at
matches_at-begins [] s block i rest nonzero d = refl
matches_at-begins (c ∷ p) [] block i rest nonzero d =
    let (ne, _) = c_text-cons c p nonzero in
    rw (matches_at, at-drop block i 0 rest d, ◌>>=◌) (rw ne refl)
matches_at-begins (c ∷ p) (b ∷ s) block i rest nonzero d =
    let read = at-drop block i b (s ++ 0 ∷ rest) d in
    elim (Bool-cases (c == b)) [
      | inr ne ↦ rw (matches_at, read, ◌>>=◌) (rw ne refl)
      | inl e ↦
          rw (matches_at, read, ◌>>=◌)
            (rw e (
              matches_at-begins p s block (i + 1) rest (c_text-cons c p nonzero).1
                (drop_next block i b (s ++ 0 ∷ rest) d)))
    ]

get_content_type-kind_of :
    (s rest : List ℕ) → get_content_type (some (s ++ 0 ∷ rest)) ≡ ok (kind_of s)
unfolding get_content_type
get_content_type-kind_of s rest =
    let block = s ++ 0 ∷ rest in
    let is_json = matches_at-begins (codes "application/json") s block 0 rest refl refl in
    let is_html = matches_at-begins (codes "text/html") s block 0 rest refl refl in
    let is_text = matches_at-begins (codes "text") s block 0 rest refl refl in
    go (begins (codes "application/json") s) (begins (codes "text/html") s)
      (begins (codes "text") s) is_json is_html is_text
  where
    go :
        (a b c : Bool)
        → matches_at (s ++ 0 ∷ rest) 0 (codes "application/json") ≡ ok a
        → matches_at (s ++ 0 ∷ rest) 0 (codes "text/html") ≡ ok b
        → matches_at (s ++ 0 ∷ rest) 0 (codes "text") ≡ ok c
        → get_content_type (some (s ++ 0 ∷ rest))
          ≡ ok (if a then json else if b then html else if c then plain else invalid)
    go true b c ha hb hc = rw (ha, ◌>>=◌) refl
    go false true c ha hb hc = rw (ha, ◌>>=◌) (rw (hb, ◌>>=◌) refl)
    go false false c ha hb hc = rw (ha, ◌>>=◌) (rw (hb, ◌>>=◌) (rw (hc, ◌>>=◌) refl))

module _ {libc : Libc} (lawful : IsLibc libc) (finds : Finds libc) where
  write_callback-flatten :
      (pieces : List (List ℕ)) {buf : AoStr}
      → IsBuffer buf
      → buf.len < buf.capacity
      → All (λ p. length p < 2 ^ 31) pieces
      → buf.capacity + 2 ^ 32 * length pieces < 2 ^ 63
      → Returns
          (write_callback libc buf pieces)
          (λ b. IsBuffer b × (text b ≡ text buf ++ flatten pieces))
  unfolding write_callback flatten
  write_callback-flatten [] {buf} is strict sizes bound =
      (buf, refl, (is, sym (append-nil (text buf))))
  write_callback-flatten (p ∷ ps) {buf} is strict sizes bound =
      let (b, r, (is', strict', _, e)) =
        cat_len-append lawful finds is p (omega (arith, sizes.0)) (omega (arith, sizes.0))
          (omega arith) in
      let grown = cat_len-capacity libc buf p (omega (arith, sizes.0)) r in
      let (b', run, (is'', e')) =
        write_callback-flatten ps {buf = b} is' strict' sizes.1 (omega (arith, sizes.0)) in
      (
        b',
        rw (r, ◌>>=◌) run,
        (is'', e' ∙ ap (λ t. t ++ flatten ps) e ∙ append_assoc (text buf) p (flatten ps)),
      )

  get_run :
      (performed : Performed) (start body : AoStr) (contenttype : Option (List ℕ))
      (type : ContentType)
      → alloc libc 512 ≡ ok start
      → write_callback libc start performed.pieces ≡ ok body
      → performed.result ≡ some contenttype
      → get_content_type contenttype ≡ ok type
      → curl_http_get libc true (some performed)
        ≡ ok (
            some (record {
              content_type = some type;
              status_code = 200;
              bodylen = body.len % u32;
              body = some body;
            }))
  unfolding curl_http_get create_response
  get_run performed start body contenttype type started run result kind =
      rw (started, ◌>>=◌) (rw (run, ◌>>=◌) (simp (result, kind, ◌>>=◌)))

  -- Where memory is found, for a page that arrives in fewer than 2^30 pieces, each shorter than 2^31,
  -- with a content type: `curlHttpGet` does not fault, and gives a response with the status 200, the
  -- kind of page that the beginning of the content type tells, and a well-formed body that holds the
  -- pieces in order; `bodylen` is the length of the body as a 32-bit number.
  pub curl_http_get-flatten :
      ((n : ℕ) → (b : List ℕ) × (libc.malloc n ≡ some b))
      → (performed : Performed) (type rest : List ℕ)
      → performed.result ≡ some (some (type ++ 0 ∷ rest))
      → All (λ p. length p < 2 ^ 31) performed.pieces
      → length performed.pieces < 2 ^ 30
      → Returns (curl_http_get libc true (some performed)) (λ r.
        (body : AoStr) × (r
          ≡ some (record {
            content_type = some (kind_of type);
            status_code = 200;
            bodylen = body.len % u32;
            body = some body;
          }))
        × IsBuffer body
        × (text body ≡ flatten performed.pieces))
  curl_http_get-flatten mallocs performed type rest result sizes few =
      let (head, made) = mallocs 32 in
      let (block, made') = mallocs 522 in
      let size = lawful.length-malloc 522 made' in
      let started = alloc_lem libc 512 made made' (omega arith) in
      let start : AoStr = record { block = block; offset = 0; len = 0; capacity = 522 } in
      let is : IsBuffer start = record {
        backed = omega arith;
        slack = omega arith;
        within = omega arith;
      } in
      let (body, run, (is', held)) =
        write_callback-flatten performed.pieces {buf = start} is (omega arith) sizes
          (omega arith) in
      (
        _,
        get_run performed start body _ _ started run result (get_content_type-kind_of type rest),
        (body, refl, is', held),
      )
