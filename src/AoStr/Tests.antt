-- ===== src/AoStr/Tests.antt =====
-- The string buffer with an allocator that always finds memory, filled with zeros.
use mathlib.Core.Option.{some-injective}
use mathlib.Core.Path.{subst}
use dictionary.AoStr.Append.{IsLibc, Finds, IsBuffer, text, Appended, cat_len-append, cat_len-fault}
use dictionary.AoStr.{
  AoStr, Libc, alloc, cat_len, put_char, un_put_char, dup_raw, extend_buffer,
  extend_buffer_if_needed, set_len, set_capacity,
}
use dictionary.Base.Block.{read_block, write_block, take-take, take-append_left, length-take}
use dictionary.Base.Text.{codes}
use dictionary.Base.{
  ℕ, ◌≡◌, refl, ◌∙◌, some, List, ◌++◌, Run, ok, fault, ◌>>=◌, Returns, at, put, length, take,
  replicate, length-replicate, length-append, arith,
}

abbrev pub zeros : Libc
zeros = record {
  malloc = λ n. some (replicate n 0);
  realloc = λ b n. some (take n (b ++ replicate n 0));
}

length-take_append : (b : List ℕ) (n : ℕ) → length (take n (b ++ replicate n 0)) ≡ n
length-take_append b n =
    length-take n (b ++ replicate n 0)
      (omega (arith, length-append b (replicate n 0), length-replicate {A = ℕ} n 0))

pub zeros-IsLibc : IsLibc zeros
zeros-IsLibc = record {
  length-malloc =
      λ n e. subst (λ x. length x ≡ n) (some-injective _ _ e) (length-replicate {A = ℕ} n 0);
  length-realloc =
      λ b n e. subst (λ x. length x ≡ n) (some-injective _ _ e) (length-take_append b n);
  take-realloc = λ b n h e.
      subst (λ x. take (length b) x ≡ b) (some-injective _ _ e)
        (take-take (length b) n _ h ∙ take-append_left b _);
}

pub zeros-Finds : Finds zeros
zeros-Finds b n = (take n (b ++ replicate n 0), refl)

program : Unit {0}
unfolding at put read_block write_block alloc extend_buffer extend_buffer_if_needed set_len
    set_capacity put_char cat_len un_put_char dup_raw
program = tt

-- "ca", then "t!", and the last byte taken off again.
session : Run (ℕ × List ℕ)
unfolding program
session = do
  b ← alloc zeros 4
  b ← cat_len zeros b (codes "ca")
  b ← put_char zeros b b't'
  b ← put_char zeros b b'!'
  (ch, b) ← un_put_char b
  ok (ch, text b)

-- The byte before the last comes back.
session_result : session ≡ ok (b't', codes "cat")
unfolding session
session_result = refl

-- A buffer as `aoStrDup` leaves it.
abbrev dupe : AoStr
dupe = record { block = replicate 13 b'a'; offset = 0; len = 3; capacity = 3 }

dupe-IsBuffer : IsBuffer dupe
dupe-IsBuffer = record { backed = omega arith; slack = omega arith; within = omega arith }

cat_len-append_example : Returns (cat_len zeros dupe (codes "bc")) (Appended dupe (codes "bc"))
cat_len-append_example =
    cat_len-append zeros-IsLibc zeros-Finds dupe-IsBuffer (codes "bc") (omega arith) (omega arith)
      (omega arith)

abbrev line : List ℕ
line = replicate 256 b'b'

cat_len-fault_example : cat_len zeros dupe line ≡ fault
cat_len-fault_example =
    cat_len-fault zeros-IsLibc zeros-Finds dupe-IsBuffer line refl (omega arith) (omega arith)
      (omega arith)
