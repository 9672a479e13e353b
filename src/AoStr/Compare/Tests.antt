-- ===== src/AoStr/Compare/Tests.antt =====
-- Texts compared and converted.
use Prim.Native.Nat.{Ordering}
use dictionary.Base.Block.{read_block}
use dictionary.Base.Text.{codes}
use dictionary.AoStr.{AoStr}
use dictionary.AoStr.Append.{text}
use dictionary.AoStr.Compare.{mem_cmp, str_n_cmp, cmp, case_cmp, convert_loop, to_lower_case}
use dictionary.Base.{
  ℕ, ◌+◌, ◌&&◌, ◌≡◌, refl, List, [], ◌∷◌, ◌++◌, ok, ◌>>=◌, at, put, length, leb, if◌then◌else◌,
}

abbrev buffer : List ℕ → AoStr
buffer s = record { block = s ++ 0 ∷ []; offset = 0; len = length s; capacity = length s + 1 }

abbrev lower : ℕ → ℕ
lower c = if leb 65 c && leb c 90 then c + 32 else c

-- A text and a longer one that begins with it
beginning : cmp (buffer (codes "cat")) (buffer (codes "catalogue")) ≡ ok Ordering.eq
unfolding at read_block mem_cmp cmp
beginning = refl

unlike : case_cmp lower (buffer (codes "CaT")) (buffer (codes "car")) ≡ ok Ordering.gt
unfolding str_n_cmp case_cmp
unlike = refl

lowered : (to_lower_case lower (buffer (codes "A Cat")) >>= λ b. ok (text b)) ≡ ok (codes "a cat")
unfolding at put convert_loop to_lower_case
lowered = refl
