-- ===== src/AoStr/Mime/Tests.antt =====
-- Texts in the Q encoding, decoded.
use dictionary.Base.Block.{read_block, write_block}
use dictionary.Base.Text.{codes}
use dictionary.AoStr.{AoStr, slice, set_len}
use dictionary.AoStr.Append.{text}
use dictionary.AoStr.Mime.{
  prefix, suffix, matches_at, is_mime_encoded, hex_to_int, decode_loop, decode_mime_encoded_inplace,
}
use dictionary.AoStr.Mime.Loop.{decode}
use dictionary.AoStr.Mime.Decode.{encode, decode_mime_encoded_inplace-encode}
use dictionary.Base.{
  ℕ, ◌+◌, ◌≡◌, refl, true, List, [], ◌∷◌, ◌++◌, ok, fault, ◌>>=◌, Returns, at, put, length, arith,
}

abbrev buffer : List ℕ → AoStr
buffer s = record { block = s ++ 0 ∷ []; offset = 0; len = length s; capacity = length s + 1 }

abbrev framed : List ℕ → AoStr
framed body = buffer (prefix ++ (body ++ suffix))

body : decode (codes "caf=C3=A9=2") ≡ codes "caf" ++ 195 ∷ 169 ∷ codes "=2"
unfolding hex_to_int
body = refl

whole :
    (decode_mime_encoded_inplace (framed (codes "a=20b=")) >>= λ b. ok (text b)) ≡ ok (codes "a b=")
unfolding at put read_block write_block slice set_len hex_to_int decode_loop
    decode_mime_encoded_inplace
whole = refl

-- Of eleven bytes the prefix and the suffix share one; the decoder reads outside the block.
accepted : is_mime_encoded (buffer (codes "=?utf-8?Q?=")) ≡ ok true
unfolding at matches_at is_mime_encoded
accepted = refl

outside : decode_mime_encoded_inplace (buffer (codes "=?utf-8?Q?=")) ≡ fault
unfolding at put read_block write_block slice decode_mime_encoded_inplace
outside = refl

decode_mime_encoded_inplace-encode_example :
    Returns
      (decode_mime_encoded_inplace (framed (encode (7 ∷ 200 ∷ []))))
      (λ b. text b ≡ 7 ∷ 200 ∷ [])
decode_mime_encoded_inplace-encode_example =
    decode_mime_encoded_inplace-encode (framed (encode (7 ∷ 200 ∷ []))) (7 ∷ 200 ∷ []) (0 ∷ []) refl
      refl (omega arith) (omega arith, (omega arith, tt))
