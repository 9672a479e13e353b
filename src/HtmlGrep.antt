-- ===== src/HtmlGrep.antt =====
-- htmlgrep.c: gathering the texts of a page's elements in a list, and joining them. What libxml2
-- finds is a parameter: the contents of the elements, each as the bytes that may be read. The list owns
-- its strings, so that a node holds the string itself.
pub mod Concat
mod Tests
use dictionary.Base.Block.{read_block}
use dictionary.AoStr.{AoStr, Libc, u32, alloc, put_char, cat_len, dup_raw}
use dictionary.LinkedList.Sort.{list_q_sort}
use dictionary.LinkedList.{Heap, LinkedList, Pointer, list_new, load, set_content, add_head}
use dictionary.Base.{
  ℕ, zero, suc, ◌+◌, ◌%◌, Bool, true, false, ◌||◌, ◌&&◌, Option, none, some, List, [], ◌∷◌, Run, ok,
  fault, ◌>>=◌, length, take, leb, ◌==◌, if◌then◌else◌,
}

-- `isalnum` in the C locale
abbrev pub is_alnum : ℕ → Bool
is_alnum c = leb 48 c && leb c 57 || leb 65 c && leb c 90 || leb 97 c && leb c 122

-- `while (!isalnum(*content))`, which does not stop at a NUL: the bytes from there on
unfoldable pub skip_to_alnum : List ℕ → Run (List ℕ)
skip_to_alnum [] = fault
skip_to_alnum (c ∷ cs) = let rest = skip_to_alnum cs in if is_alnum c then ok (c ∷ cs) else rest

-- `strlen`'s bytes: a fault where there is no NUL
unfoldable pub c_string : List ℕ → Run (List ℕ)
c_string [] = fault
c_string (c ∷ cs) = elim (c == 0) [ true ↦ ok [] | false ↦ c_string cs >>= λ s. ok (c ∷ s) ]

module _ (libc : Libc) where
  -- The loop of `parse_html` over the nodes, where `memory` tells whether memory for a node is found;
  -- `len` is an `unsigned int`.
  unfoldable pub collect :
      Bool → List (List ℕ) → Heap AoStr → LinkedList → Run (Heap AoStr × LinkedList)
  collect memory [] h l = ok (h, l)
  collect memory (content ∷ rest) h l = skip_to_alnum content >>= λ from. c_string from >>= λ s.
      let len = length s % u32 in
      dup_raw libc (take len s) ((len + 10) % u32) >>= λ d.
      add_head memory h l d >>= λ (h', l'). collect memory rest h' l'

  -- `htmlGetMatches`, with what `sortstring` says as a parameter: it compares the addresses that the
  -- structures hold. A page that cannot be parsed gives a NULL list, which `listQSort` follows. A fault
  -- stands for a sort that does not end within its fuel too.
  unfoldable pub get_matches :
      (AoStr → AoStr → Bool) → ℕ → Bool → Option (List (List ℕ)) → Run (Heap AoStr × LinkedList)
  get_matches sortstring fuel memory none = fault
  get_matches sortstring fuel memory (some contents) =
      collect memory contents [] (record list_new { freedata = true }) >>= λ (h, l).
      list_q_sort fuel (some sortstring) h l >>= λ sorted. elim sorted [
        | none ↦ fault
        | some s ↦ ok s
      ]

  -- The loop of `htmlConcatList`, with `count` nodes left
  unfoldable pub concat_loop : ℕ → Heap AoStr → Pointer → AoStr → Run (Heap AoStr × AoStr)
  concat_loop zero h ln new = ok (h, new)
  concat_loop (suc count) h ln new = load h ln >>= λ n. put_char libc n.content 10 >>= λ data1.
      put_char libc data1 10 >>= λ data2. set_content h ln data2 >>= λ h'.
      read_block data2.block 0 data2.len >>= λ s.
      cat_len libc new s >>= λ new'. concat_loop count h' n.next new'

  -- `htmlConcatList`
  unfoldable pub concat_list : Heap AoStr → LinkedList → Run (Heap AoStr × Option AoStr)
  concat_list h l = elim (l.len == 0) [
    | true ↦ ok (h, none)
    | false ↦ alloc libc 512 >>= λ new.
        concat_loop l.len h l.root new >>= λ (h', joined). ok (h', some joined)
  ]
