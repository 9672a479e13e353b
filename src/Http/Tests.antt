-- ===== src/Http/Tests.antt =====
-- A page in two pieces.
use dictionary.Base.Block.{write_block}
use dictionary.Base.Text.{codes}
use dictionary.Http.Gathered.{kind_of, curl_http_get-flatten}
use dictionary.AoStr.{AoStr, u32, alloc, extend_buffer, extend_buffer_if_needed, cat_len}
use dictionary.AoStr.Append.{IsBuffer, text}
use dictionary.AoStr.Mime.{matches_at}
use dictionary.AoStr.Tests.{zeros, zeros-IsLibc, zeros-Finds}
use dictionary.Http.{
  ContentType, HttpResponse, Performed, get_content_type, create_response, write_callback,
  curl_http_get,
}
use dictionary.Base.{
  flatten, ℕ, ◌%◌, Returns, replicate, arith, ◌≡◌, refl, true, Option, none, some, List, [], ◌∷◌,
  ◌++◌, Run, ok, fault, ◌>>=◌, at, put,
}

abbrev page : Performed
page = record {
  pieces = codes "<p>" ∷ codes "cat" ∷ [];
  result = some (some (codes "text/html; charset=utf-8" ++ 0 ∷ []));
}

abbrev body_text : Option HttpResponse → Run (List ℕ)
body_text none = fault
body_text (some r) = elim r.body [ none ↦ fault | some b ↦ ok (text b) ]

whole : (curl_http_get zeros true (some page) >>= λ r. body_text r) ≡ ok (codes "<p>cat")
unfolding at put write_block alloc extend_buffer extend_buffer_if_needed cat_len matches_at
    get_content_type create_response write_callback curl_http_get
whole = refl

kind : get_content_type (some (codes "text/html" ++ 0 ∷ [])) ≡ ok ContentType.html
unfolding at matches_at get_content_type
kind = refl

curl_http_get-flatten_example : Returns (curl_http_get zeros true (some page)) (λ r.
    (body : AoStr) × (r
      ≡ some (record {
        content_type = some (kind_of (codes "text/html; charset=utf-8"));
        status_code = 200;
        bodylen = body.len % u32;
        body = some body;
      }))
    × IsBuffer body
    × (text body ≡ flatten page.pieces))
curl_http_get-flatten_example =
    curl_http_get-flatten zeros-IsLibc zeros-Finds (λ n. (replicate n 0, refl)) page
      (codes "text/html; charset=utf-8") [] refl (omega arith, (omega arith, tt)) (omega arith)
