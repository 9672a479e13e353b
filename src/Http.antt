-- ===== src/Http.antt =====
-- http.c: the response of a page, with libcurl as a parameter.
pub mod Gathered
mod Tests
use dictionary.Base.Text.{codes}
use dictionary.AoStr.{AoStr, Libc, u32, alloc, cat_len}
use dictionary.AoStr.Mime.{matches_at}
use dictionary.Base.{
  ℕ, ◌%◌, Bool, true, false, Option, none, some, List, [], ◌∷◌, Run, ok, fault, ◌>>=◌,
  if◌then◌else◌,
}

-- RES_TYPE_INVALID, RES_TYPE_JSON, RES_TYPE_HTML and RES_TYPE_TEXT
pub data ContentType : Type 0 where
  invalid json html text : ContentType

-- `httpResponse`, where `content_type` is nothing until it is set
pub record HttpResponse : Type 0 where
  pub content_type : Option ContentType
  pub status_code : ℕ
  pub bodylen : ℕ
  pub body : Option AoStr

-- `_httpCreateResponse`, where `memory` tells whether `malloc` finds memory
unfoldable pub create_response : Bool → Option HttpResponse
create_response memory =
    if memory
    then some (record { content_type = none; status_code = 404; bodylen = 0; body = none })
    else none

-- `_httpGetContentType`; the type is NULL where the page says none.
unfoldable pub get_content_type : Option (List ℕ) → Run ContentType
get_content_type none = fault
get_content_type (some type) = matches_at type 0 (codes "application/json") >>= λ is_json.
    elim is_json [
      | true ↦ ok json
      | false ↦ matches_at type 0 (codes "text/html") >>= λ is_html. elim is_html [
        | true ↦ ok html
        | false ↦
            matches_at type 0 (codes "text") >>= λ is_text. ok (if is_text then text else invalid)
      ]
    ]

-- What `curl_easy_perform` does: the pieces that it hands to the callback, and nothing for an error
-- or, for CURLE_OK, the content type.
pub record Performed : Type 0 where
  pub pieces : List (List ℕ)
  pub result : Option (Option (List ℕ))

module _ (libc : Libc) where
  -- The calls of `httpRequestWriteCallback`
  unfoldable pub write_callback : AoStr → List (List ℕ) → Run AoStr
  write_callback body [] = ok body
  write_callback body (piece ∷ rest) =
      cat_len libc body piece >>= λ body'. write_callback body' rest

  -- `curlHttpGet`, where `curl` is nothing if `curl_easy_init` fails
  unfoldable pub curl_http_get : Bool → Option Performed → Run (Option HttpResponse)
  curl_http_get memory curl = alloc libc 512 >>= λ respbody. elim (create_response memory) [
    | none ↦ ok none
    | some httpres ↦ elim curl [
      | none ↦ ok (some httpres)
      | some performed ↦ write_callback respbody performed.pieces >>= λ body.
          elim performed.result [
            | none ↦ ok (some httpres)
            | some contenttype ↦ get_content_type contenttype >>= λ type. ok (
                some (record {
                  content_type = some type;
                  status_code = 200;
                  bodylen = body.len % u32;
                  body = some body;
                }))
          ]
    ]
  ]
