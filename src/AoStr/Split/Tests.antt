-- ===== src/AoStr/Split/Tests.antt =====
-- Splitting, in an array that has room.
use dictionary.Base.Block.{read_block, write_block}
use dictionary.Base.Text.{codes}
use dictionary.AoStr.{AoStr, alloc, set_len, set_capacity, dup_raw}
use dictionary.AoStr.Append.{text}
use dictionary.AoStr.Split.{store_next, grow, split_loop}
use dictionary.AoStr.Tests.{zeros}
use dictionary.Base.{ℕ, ◌≡◌, refl, none, some, List, [], ◌∷◌, ◌++◌, ok, fault, ◌>>=◌, at, put}

abbrev texts_of : List AoStr → List (List ℕ)
texts_of [] = []
texts_of (s ∷ rest) = text s ∷ texts_of rest

roomy :
    (split_loop zeros b',' (record { stored = []; bytes = 40 }) 5 [] (codes "a,,bc" ++ 0 ∷ [])
      >>= λ o. elim o [ none ↦ fault | some arr ↦ ok (texts_of arr.stored) ])
    ≡ ok (codes "a" ∷ [] ∷ codes "bc" ∷ [])
unfolding at put read_block write_block alloc set_len set_capacity dup_raw store_next grow
    split_loop
roomy = refl
