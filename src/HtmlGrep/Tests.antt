-- ===== src/HtmlGrep/Tests.antt =====
-- Texts of a page gathered and joined.
use dictionary.Base.Text.{codes}
use dictionary.AoStr.{AoStr}
use dictionary.AoStr.Append.{IsBuffer}
use dictionary.AoStr.Tests.{zeros, zeros-IsLibc, zeros-Finds}
use dictionary.HtmlGrep.{skip_to_alnum, c_string, concat_list}
use dictionary.HtmlGrep.Concat.{joined, IsJoined, concat_list-IsJoined}
use dictionary.LinkedList.{Heap, LinkedList}
use dictionary.LinkedList.Ring.{Represents}
use dictionary.Base.{
  ℕ, ◌+◌, ◌≡◌, refl, true, false, some, List, [], ◌∷◌, ◌++◌, ok, fault, ◌>>=◌, Returns, length,
  replicate, arith,
}

skipped : (skip_to_alnum (codes " : the cat" ++ 0 ∷ []) >>= λ s. c_string s) ≡ ok (codes "the cat")
unfolding skip_to_alnum c_string
skipped = refl

-- A text without letters and digits: the loop runs past its end.
past : skip_to_alnum (codes " - " ++ 0 ∷ []) ≡ fault
unfolding skip_to_alnum
past = refl

abbrev line : List ℕ → AoStr
line s = record {
  block = s ++ replicate 10 0;
  offset = 0;
  len = length s;
  capacity = length s + 10;
}

abbrev heap : Heap AoStr
heap =
    some (record { content = line (codes "a cat"); next = some 1; prev = some 1 })
    ∷ some (record { content = line (codes "an owl"); next = some 0; prev = some 0 })
    ∷ []

abbrev two : LinkedList
two = record { len = 2; root = some 0; locked = false; freedata = true }

heap-Represents : Represents heap two (line (codes "a cat") ∷ line (codes "an owl") ∷ [])
heap-Represents = (
  0,
  1 ∷ [],
  refl,
  refl,
  record {
    distinct = ((refl, tt), (tt, tt));
    nexts = (refl, (refl, tt));
    prevs = (refl, (refl, tt));
    holds = (refl, (refl, tt));
  },
)

line-IsBuffer : (s : List ℕ) → length (s ++ replicate 10 0) ≡ length s + 10 → IsBuffer (line s)
line-IsBuffer s e = record {
  backed = omega (arith, e);
  slack = omega (arith, e);
  within = omega arith;
}

text-joined :
    joined (line (codes "a cat") ∷ line (codes "an owl") ∷ [])
    ≡ codes "a cat" ++ 10 ∷ 10 ∷ codes "an owl" ++ 10 ∷ 10 ∷ []
text-joined = refl

concat_list-IsJoined_example :
    Returns
      (concat_list zeros heap two)
      (λ r. IsJoined (line (codes "a cat") ∷ line (codes "an owl") ∷ []) r.1)
concat_list-IsJoined_example =
    concat_list-IsJoined zeros-IsLibc zeros-Finds (λ n. (replicate n 0, refl)) heap two
      (line (codes "a cat") ∷ line (codes "an owl") ∷ []) heap-Represents
      (
        (line-IsBuffer (codes "a cat") refl, omega arith, omega arith),
        ((line-IsBuffer (codes "an owl") refl, omega arith, omega arith), tt),
      )
      (omega arith)
