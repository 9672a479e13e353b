-- ===== src/AoStr/Mime/Decode.antt =====
-- aoStrDecodeMimeEncodedInplace on a text in the Q encoding, and bytes encoded and decoded again.
use Prim.Native.Nat.{◌*◌, ◌/◌}
use dictionary.Base.Block.{
  read_block-lem, write_block, write_block_over, put-append, drop-append, take-append_left,
  length-take,
}
use dictionary.AoStr.{AoStr, u64, slice, set_len}
use dictionary.AoStr.Append.{text, IsTerminated}
use dictionary.AoStr.Mime.{prefix, suffix, decode_mime_encoded_inplace, hex_to_int}
use dictionary.AoStr.Mime.Loop.{decode, decode_loop-decode, decode_escape, byte_of}
use dictionary.Base.{
  ℕ, zero, suc, ◌+◌, ◌-◌, ◌%◌, ◌^◌, ◌≤◌, ◌<◌, ◌≡◌, refl, sym, ap, ◌∙◌, false, some, List, [], ◌∷◌,
  ◌++◌, ok, ◌>>=◌, Returns, at-drop, put, length, length-append, take, drop, All, ltb, ◌==◌,
  if◌then◌else◌, arith,
}

take-drop : (n : ℕ) (xs : List ℕ) → take n xs ++ drop n xs ≡ xs
take-drop zero xs = refl
take-drop (suc n) [] = refl
take-drop (suc n) (x ∷ xs) = ap (λ r. x ∷ r) (take-drop n xs)

length-drop : (n : ℕ) (xs : List ℕ) → n ≤ length xs → n + length (drop n xs) ≡ length xs
length-drop zero xs h = omega arith
length-drop (suc n) [] h = absurd (omega arith)
length-drop (suc n) (x ∷ xs) h = omega (arith, length-drop n xs (omega arith))

two_cells : (xs : List ℕ) → 2 ≤ length xs → (p : ℕ) × (q : ℕ) × (ps : List ℕ) × (xs ≡ p ∷ q ∷ ps)
two_cells [] h = absurd (omega arith)
two_cells (p ∷ []) h = absurd (omega arith)
two_cells (p ∷ q ∷ ps) h = (p, q, ps, refl)

-- A NUL goes to the end of what is written, in front of what is left of the block.
put_behind :
    (d gs : List ℕ) (x : ℕ) (xs : List ℕ)
    → (rest : List ℕ) × (put (d ++ (gs ++ x ∷ xs)) (length d) 0 ≡ ok (d ++ 0 ∷ rest))
put_behind d [] x xs = (xs, put-append d x xs 0)
put_behind d (g ∷ gs) x xs = (gs ++ x ∷ xs, put-append d g (gs ++ x ∷ xs) 0)

module _ (buf : AoStr) (body tail : List ℕ) where
  abbrev n : ℕ
  n = length body

  slice-body :
      buf.block ≡ prefix ++ (body ++ (suffix ++ tail))
      → (q : ℕ) × (ps : List ℕ) × (slice buf 10 0 n
          ≡ ok (record buf { block = body ++ 0 ∷ q ∷ ps; len = n }))
  unfolding slice
  slice-body is_block =
      let block = prefix ++ (body ++ (suffix ++ tail)) in
      let longer : length (body ++ (suffix ++ tail)) ≡ n + length (suffix ++ tail) =
        length-append body (suffix ++ tail) in
      let (p, q, ps, left) =
        two_cells (drop n block) (omega (arith, length-drop n block (omega arith))) in
      let read = read_block-lem block 10 n (omega arith) in
      let inner = take-append_left body (suffix ++ tail) in
      let over =
        write_block_over [] (take n block) (drop n block) body
          (length-take n block (omega arith)) in
      let whole = take-drop n block in
      let written : write_block block 0 body ≡ ok (body ++ p ∷ q ∷ ps) =
        ap (λ b. write_block b 0 body) (sym whole) ∙ over ∙ ap (λ r. ok (body ++ r)) left in
      (q, ps, rw (is_block, read, inner, ◌>>=◌) (rw (written, put-append body p (q ∷ ps) 0, ◌>>=◌)))

  pub decode_mime_encoded_inplace-decode :
      buf.block ≡ prefix ++ (body ++ (suffix ++ tail))
      → buf.len ≡ n + 12
      → n + 12 < 2 ^ 64
      → All (λ c. (c == 0) ≡ false) body
      → Returns (decode_mime_encoded_inplace buf) (λ b. (text b ≡ decode body) × IsTerminated b)
  unfolding decode_mime_encoded_inplace set_len
  decode_mime_encoded_inplace-decode is_block is_len bound filled =
      let (q, ps, sliced) = slice-body is_block in
      let longer = length-append body (0 ∷ q ∷ ps) in
      let (gs, run) =
        decode_loop-decode q ps (length (body ++ 0 ∷ q ∷ ps)) body [] [] (omega arith) filled in
      let d = decode body in
      let (rest, ended) = put_behind d gs 0 (q ∷ ps) in
      let size : (buf.len + (u64 - 12)) % u64 ≡ n = omega arith in
      (
        record buf { block = d ++ 0 ∷ rest; len = length d },
        rw (size, sliced, ◌>>=◌) (rw (run, ◌>>=◌) (rw (ended, ◌>>=◌) refl)),
        (
          take-append_left d (0 ∷ rest),
          at-drop (d ++ 0 ∷ rest) (length d) 0 rest (drop-append d (0 ∷ rest)),
        ),
      )

-- A digit of the Q encoding, and a byte in it
abbrev pub hex_digit : ℕ → ℕ
hex_digit v = if ltb v 10 then 48 + v else 55 + v

abbrev pub encode : List ℕ → List ℕ
encode [] = []
encode (c ∷ cs) = b'=' ∷ hex_digit (c / 16) ∷ hex_digit (c % 16) ∷ encode cs

hex_to_int-hex_digit : (v : ℕ) → v < 16 → hex_to_int (hex_digit v) ≡ some v
unfolding hex_to_int
hex_to_int-hex_digit v bound = ground arith

hex_digit_filled : (v : ℕ) → v < 16 → (hex_digit v == 0) ≡ false
hex_digit_filled v bound = ground arith

byte_of-hex_digit : (c : ℕ) → c < 256 → byte_of (hex_digit (c / 16)) (hex_digit (c % 16)) ≡ some c
byte_of-hex_digit c bound =
    let e : c / 16 * 16 + c % 16 ≡ c = omega arith in
    rw (hex_to_int-hex_digit (c / 16) (omega arith), hex_to_int-hex_digit (c % 16) (omega arith), e)

decode-encode : (cs : List ℕ) → All (λ c. c < 256) cs → decode (encode cs) ≡ cs
decode-encode [] bytes = refl
decode-encode (c ∷ cs) bytes =
    decode_escape (hex_digit (c / 16)) (hex_digit (c % 16)) c (encode cs)
      (byte_of-hex_digit c bytes.0)
    ∙ ap (λ r. c ∷ r) (decode-encode cs bytes.1)

encode_filled : (cs : List ℕ) → All (λ c. c < 256) cs → All (λ c. (c == 0) ≡ false) (encode cs)
encode_filled [] bytes = tt
encode_filled (c ∷ cs) bytes =
    let first = hex_digit_filled (c / 16) (omega (arith, bytes.0)) in
    let second = hex_digit_filled (c % 16) (omega arith) in
    (refl, (first, (second, encode_filled cs bytes.1)))

module _ (buf : AoStr) (cs tail : List ℕ) where
  -- Bytes that are written in the Q encoding, each as an equals sign and two digits, between
  -- "=?utf-8?Q?" and "?=" in a buffer of that length: `aoStrDecodeMimeEncodedInplace` does not fault,
  -- and the text of the buffer is then these bytes.
  pub decode_mime_encoded_inplace-encode :
      buf.block ≡ prefix ++ (encode cs ++ (suffix ++ tail))
      → buf.len ≡ length (encode cs) + 12
      → length (encode cs) + 12 < 2 ^ 64
      → All (λ c. c < 256) cs
      → Returns (decode_mime_encoded_inplace buf) (λ b. text b ≡ cs)
  decode_mime_encoded_inplace-encode is_block is_len bound bytes =
      let (b, run, (e, _)) =
        decode_mime_encoded_inplace-decode buf (encode cs) tail is_block is_len bound
          (encode_filled cs bytes) in
      (b, run, e ∙ decode-encode cs bytes)
