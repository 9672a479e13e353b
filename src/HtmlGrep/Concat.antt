-- ===== src/HtmlGrep/Concat.antt =====
-- htmlConcatList on a list of strings.
use Prim.Native.Nat.{◌*◌}
use mathlib.Core.List.{append_assoc, append-nil}
use mathlib.Core.Path.{subst}
use dictionary.AoStr.{AoStr, Libc, alloc, put_char}
use dictionary.AoStr.Append.{IsLibc, Finds, IsBuffer, text, cat_len-append}
use dictionary.AoStr.Edit.{alloc_lem}
use dictionary.AoStr.Escape.Grow.{IsGrown, append-IsGrown, put_char-IsGrown, cat_len-capacity}
use dictionary.Base.Block.{read_block-lem, length-take}
use dictionary.HtmlGrep.{concat_loop, concat_list}
use dictionary.LinkedList.{Heap, LinkedList}
use dictionary.LinkedList.Chain.{Distinct, head_or, last, Nexts, Prevs, Holds, Holds-patch}
use dictionary.LinkedList.Cells.{next_of, prev_of, content_of, load_lem, set_content_lem}
use dictionary.LinkedList.Ring.{Represents}
use dictionary.Base.{
  ℕ, suc, ◌+◌, ◌^◌, ◌<◌, ◌≡◌, refl, sym, ap, ◌∙◌, true, false, Option, none, some, List, [], ◌∷◌,
  ◌++◌, ok, ◌>>=◌, Returns, length, length-append, All, ◌==◌, arith,
}

-- Each text with two line feeds behind it
abbrev pub joined : List AoStr → List ℕ
joined [] = []
joined (x ∷ xs) = (text x ++ 10 ∷ 10 ∷ []) ++ joined xs

joined_step :
    (all front old s line rest : List ℕ)
    → all ≡ front ++ rest
    → front ≡ old ++ s
    → s ≡ line
    → all ≡ old ++ (line ++ rest)
joined_step all front old s line rest e e' same =
    e ∙ ap (λ t. t ++ rest) (e' ∙ ap (λ t. old ++ t) same) ∙ append_assoc old line rest

-- What `htmlConcatList` gives for these strings
abbrev pub IsJoined : List AoStr → Option AoStr → Type 0
IsJoined [] o = o ≡ none
IsJoined (x ∷ xs) o = (b : AoStr) × (o ≡ some b) × IsBuffer b × (text b ≡ joined (x ∷ xs))

-- A well-formed string, far from the end of memory
abbrev pub IsLine : AoStr → Type 0
IsLine x = IsBuffer x × (x.capacity < 2 ^ 62) × (x.len < 2 ^ 31)

module _ {libc : Libc} (lawful : IsLibc libc) (finds : Finds libc) where
  -- The two line feeds behind a string
  two_feeds :
      (x : AoStr)
      → IsLine x
      → (x1 : AoStr) × (put_char libc x 10 ≡ ok x1)
        × (x2 : AoStr) × (put_char libc x1 10 ≡ ok x2)
        × IsGrown x (10 ∷ 10 ∷ []) 512 x2
  two_feeds x (is, small, _) =
      let (x1, r1, g1) = put_char-IsGrown lawful finds is (omega arith) 10 in
      let (x2, r2, g2) = put_char-IsGrown lawful finds g1.is (omega (arith, g1.capacity)) 10 in
      (x1, r1, x2, r2, append-IsGrown g1 g2)

  length-text : {x : AoStr} → IsBuffer x → length (text x) ≡ x.len
  length-text {x} is = length-take x.len x.block (omega (arith, is.backed, is.within))

  concat_loop-joined :
      (ps : List ℕ) (xs : List AoStr) (n p : ℕ) (h : Heap AoStr) {new : AoStr}
      → Distinct ps
      → Nexts (next_of h) ps n
      → Prevs (prev_of h) p ps
      → Holds (content_of h) ps xs
      → All IsLine xs
      → IsBuffer new
      → new.len < new.capacity
      → new.capacity + 2 ^ 32 * length xs < 2 ^ 63
      → Returns
          (concat_loop libc (length xs) h (some (head_or ps n)) new)
          (λ r. IsBuffer r.1 × (text r.1 ≡ text new ++ joined xs))
  unfolding concat_loop
  concat_loop-joined [] [] n p h {new} apart nx pv ct lines is strict bound =
      ((h, new), refl, (is, sym (append-nil (text new))))
  concat_loop-joined [] (x ∷ xs) n p h apart nx pv ct lines is strict bound = absurd ct
  concat_loop-joined (a ∷ ps) [] n p h apart nx pv ct lines is strict bound = absurd ct
  concat_loop-joined (a ∷ ps) (x ∷ xs) n p h {new} apart nx pv ct lines is strict bound =
      let (x1, r1, x2, r2, g) = two_feeds x lines.0 in
      let s = text x2 in
      let size : length s ≡ x.len + 2 =
        ap length g.appended
        ∙ length-append (text x) (10 ∷ 10 ∷ [])
        ∙ ap (λ k. k + 2) (length-text lines.0.0) in
      let len = length-text g.is in
      let (h', stored, (n', p', c')) = set_content_lem h a x2 x ct.0 in
      let (b, r3, (is', strict', _, e)) =
        cat_len-append lawful finds is s (omega (arith, lines.0.1)) (omega (arith, lines.0.1))
          (omega arith) in
      let grown = cat_len-capacity libc new s (omega (arith, lines.0.1)) r3 in
      let (r, run, (is'', e')) =
        concat_loop-joined ps xs n a h' {new = b} apart.1 (subst (λ f. Nexts f ps n) (sym n') nx.1)
          (subst (λ f. Prevs f a ps) (sym p') pv.1)
          (subst (λ f. Holds f ps xs) (sym c')
            (Holds-patch (content_of h) a (some x2) ps xs apart.0 ct.1))
          lines.1 is' strict' (omega (arith, lines.0.1)) in
      let read = read_block-lem x2.block 0 x2.len (omega (arith, g.is.backed, g.is.within)) in
      let loaded = load_lem h a x (some (head_or ps n)) (some p) ct.0 nx.0 pv.0 in
      (
        r,
        rw (loaded, ◌>>=◌)
            (rw (r1, ◌>>=◌)
              (rw (r2, ◌>>=◌) (rw (stored, ◌>>=◌) (rw (read, ◌>>=◌) (rw (r3, ◌>>=◌) run))))),
        (
          is'',
          joined_step (text r.1) (text b) (text new) s (text x ++ 10 ∷ 10 ∷ []) (joined xs) e' e
              g.appended,
        ),
      )

  concat_list_run :
      (h : Heap AoStr) (l : LinkedList) (new : AoStr) (r : Heap AoStr × AoStr)
      → (l.len == 0) ≡ false
      → alloc libc 512 ≡ ok new
      → concat_loop libc l.len h l.root new ≡ ok r
      → concat_list libc h l ≡ ok (r.0, some r.1)
  unfolding concat_list
  concat_list_run h l new r filled started run =
      rw (concat_list, filled, started, ◌>>=◌) (rw (run, ◌>>=◌))

  -- Where memory is found, on a list that stands for fewer than 2^30 strings, each well formed, shorter
  -- than 2^31 and with a capacity below 2^62: `htmlConcatList` does not fault, its loop ends, and it
  -- returns a well-formed string of the texts in the list's order, each with two line feeds behind it,
  -- or NULL where the list is empty.
  pub concat_list-IsJoined :
      ((n : ℕ) → (b : List ℕ) × (libc.malloc n ≡ some b))
      → (h : Heap AoStr) (l : LinkedList) (xs : List AoStr) → Represents h l xs
      → All IsLine xs
      → length xs < 2 ^ 30
      → Returns (concat_list libc h l) (λ r. IsJoined xs r.1)
  unfolding concat_list
  concat_list-IsJoined mallocs h l [] (root, len) lines few =
      let e : (l.len == 0) ≡ true = ground arith in ((h, none), rw (concat_list, e), refl)
  concat_list-IsJoined mallocs h l (x ∷ xs) (a, ps, root, len, ring) lines few =
      let e : (l.len == 0) ≡ false = ground arith in
      let (head, made) = mallocs 32 in
      let (block, made') = mallocs 522 in
      let size = lawful.length-malloc 522 made' in
      let started = alloc_lem libc 512 made made' (omega arith) in
      let new : AoStr = record { block = block; offset = 0; len = 0; capacity = 522 } in
      let is : IsBuffer new = record {
        backed = omega arith;
        slack = omega arith;
        within = omega arith;
      } in
      let (r, run, (is', joined)) =
        concat_loop-joined (a ∷ ps) (x ∷ xs) a (last a ps) h {new = new} ring.distinct ring.nexts
          ring.prevs ring.holds lines is (omega arith) (omega arith) in
      (
        (r.0, some r.1),
        concat_list_run h l new r e started (
            ap (λ k. concat_loop libc k h l.root new) len
            ∙ ap (λ p. concat_loop libc (suc (length xs)) h p new) root
            ∙ run),
        (r.1, refl, is', joined),
      )
