-- ===== src/Hmap/Expand.antt =====
-- `_hmapExpand` in hmap.c: the two loops move every entry, and no key is lost, gained or changed.
use mathlib.Core.Option.{or_else}
use dictionary.Base.{
  ℕ, zero, suc, ◌+◌, ◌-◌, ◌%◌, ◌<◌, ◌≡◌, refl, ◌∙◌, ap, bit_and, bind_assoc, >>=-eq-ok, true,
  Option, none, some, List, [], ◌∷◌, ◌++◌, flatten, arith, Returns, at, put, ok, ◌>>=◌, ◌==◌,
  length, length-append, length-set, length-flatten-set, replicate, length-replicate,
  flatten-replicate, nil_of_length, bind_congr, Bool-cases, inl, inr, if◌then◌else◌,
}
use dictionary.Hmap.Bucket.{IsLawful, eqb, eqb_refl, lookup, Distinct}
use dictionary.Hmap.Flatten.{Owns, flatten-IsListing}
use dictionary.Hmap.Table.{
  bucket_of, view, IsTable, home-lt, at-home, put-home, set-IsTable, view-set, cons-Replaces,
  replicate-IsTable, view-replicate,
}
use dictionary.Hmap.{HmapType, Entry, Bucket, find, move_bucket, move_all, u32}

module _ {ℓ} {K V : Type ℓ} where
  move_bucket-append :
      (m : ℕ) (a b : Bucket K V) (fresh : List (Bucket K V)) (size : ℕ)
      → move_bucket m (a ++ b) fresh size
        ≡ (move_bucket m a fresh size >>= λ r. move_bucket m b r.0 r.1)
  unfolding move_bucket
  move_bucket-append m [] b fresh size = refl
  move_bucket-append m (e ∷ a) b fresh size = simp (bind_assoc, move_bucket-append m a b)

  -- The count goes down by one for each entry that is moved.
  move_bucket-count :
      (m : ℕ) (a : Bucket K V) (fresh : List (Bucket K V)) (size left : ℕ)
      {r : List (Bucket K V) × ℕ}
      → size ≡ length a + left
      → size < u32
      → move_bucket m a fresh size ≡ ok r
      → r.1 ≡ left
  unfolding move_bucket
  move_bucket-count m [] fresh size left e h run = ground arith
  move_bucket-count m (x ∷ a) fresh size left e h run =
      let i = bit_and x.hash m in
      let go = λ (f : List (Bucket K V)). move_bucket m a f ((size + u32 - 1) % u32) in
      let (head, _, run₁) = >>=-eq-ok (at fresh i) (λ h. put fresh i (x ∷ h) >>= go) run in
      let (fresh', _, run₂) = >>=-eq-ok (put fresh i (x ∷ head)) go run₁ in
      move_bucket-count m a fresh' ((size + u32 - 1) % u32) left (omega arith) (omega arith) run₂

  -- The outer loop is one pass over all the entries: it stops early only when none is left.
  move_all-flatten :
      (rounds m : ℕ) (old fresh : List (Bucket K V)) (size : ℕ)
      → length old ≡ rounds
      → size ≡ length (flatten old)
      → size < u32
      → move_all rounds m old fresh size
        ≡ (move_bucket m (flatten old) fresh size >>= λ r. ok (r.0))
  unfolding move_all flatten
  move_all-flatten zero m [] fresh size w n h = unfold move_bucket in refl
  move_all-flatten zero m (b ∷ bs) fresh size w n h = absurd (omega arith)
  move_all-flatten (suc rounds) m [] fresh size w n h = absurd (omega arith)
  move_all-flatten (suc rounds) m (b ∷ bs) fresh size w n h =
      let total = length-append b (flatten bs) in
      elim (Bool-cases (size == 0)) [
        | inl done ↦
            let none_left = nil_of_length (b ++ flatten bs) (ground (arith, total)) in
            rw (done, none_left) (unfold move_bucket in refl)
        | inr more ↦
            rw (more, move_bucket-append m b (flatten bs) fresh size, bind_assoc)
              (bind_congr (move_bucket m b fresh size) _ _ λ r run.
                let left =
                  move_bucket-count m b fresh size (length (flatten bs)) (omega arith) h run in
                move_all-flatten rounds m bs (r.0) (r.1) (omega arith) left (omega arith))
      ]

module _ {ℓ} {K V : Type ℓ} (type : HmapType K) where
  -- `moved` is `fresh` with the entries `es` added.
  pub record Moved (m : ℕ) (fresh : List (Bucket K V)) (es : Bucket K V) (moved : List (Bucket K V))
      : Type ℓ where
    pub table : IsTable type m moved
    pub width : length moved ≡ length fresh
    pub total : length (flatten moved) ≡ length (flatten fresh) + length es
    pub finds : (q : K) → view type m moved q ≡ or_else (lookup type q es) (view type m fresh q)

  module _ (lawful : IsLawful type) (m : ℕ) where
    hit_self :
        (e : Entry K V)
        → e.hash ≡ type.hash_fn e.key
        → type.keycmp e.key (type.hash_fn e.key) e.key e.hash ≡ true
    hit_self e own = rw own (eqb_refl type lawful e.key)

    match-eqb :
        (q : K) (e : Entry K V)
        → e.hash ≡ type.hash_fn e.key
        → type.keycmp q (type.hash_fn q) e.key e.hash ≡ eqb type q e.key
    match-eqb q e own = rw own

    -- The first entry of the rest is not found again under its own key.
    miss_rest :
        (q : K) (e : Entry K V) (es : Bucket K V)
        → lookup type e.key es ≡ none
        → eqb type q e.key ≡ true
        → lookup type q es ≡ none
    miss_rest q e es gone same = let k : q ≡ e.key = (lawful.keycmp_iff q e.key).0 same in rw k gone

    apart_step :
        (es : Bucket K V) (e : Entry K V) {old : Option (Entry K V)}
        → lookup type e.key es ≡ none
        → e.hash ≡ type.hash_fn e.key
        → (q : K) → ((f : Entry K V) → lookup type q (e ∷ es) ≡ some f → old ≡ none)
        → (f : Entry K V) → lookup type q es ≡ some f
        → (if eqb type q e.key then some e else old) ≡ none
    unfolding find
    apart_step es e gone own q apart f h = elim (Bool-cases (eqb type q e.key)) [
      | inl same ↦ cc (h, miss_rest q e es gone same)
      | inr other ↦ rw other (apart f (rw (match-eqb q e own, other) h))
    ]

    finds_step :
        (e : Entry K V) (es : Bucket K V) (q : K)
        → lookup type e.key es ≡ none
        → e.hash ≡ type.hash_fn e.key
        → (old : Option (Entry K V))
        → or_else (lookup type q es) (if eqb type q e.key then some e else old)
          ≡ or_else (lookup type q (e ∷ es)) old
    unfolding find or_else
    finds_step e es q gone own old = elim (Bool-cases (eqb type q e.key)) [
      | inl same ↦ rw (match-eqb q e own, same, miss_rest q e es gone same)
      | inr other ↦ rw (match-eqb q e own, other)
    ]

    move_bucket-Moved :
        (es : Bucket K V) (fresh : List (Bucket K V)) (size : ℕ)
        → IsTable type m fresh
        → Owns type es
        → Distinct type es
        → ((q : K) (e : Entry K V) → lookup type q es ≡ some e → view type m fresh q ≡ none)
        → Returns (move_bucket m es fresh size) (λ r. Moved m fresh es (r.0))
    unfolding move_bucket find or_else
    move_bucket-Moved [] fresh size t own d apart = (
      (fresh, size),
      refl,
      record { table = t; width = refl; total = omega arith; finds = λ q. refl },
    )
    move_bucket-Moved (e ∷ es) fresh size t own d apart =
        let absent = apart e.key e (rw (hit_self e own.0)) in
        let r = cons-Replaces type lawful t e own.0 absent in
        let t' = set-IsTable type lawful t e.key r in
        let same = ap (λ h. bit_and h m) own.0 in
        let (out, run, p) =
          move_bucket-Moved es _ ((size + u32 - 1) % u32) t' own.1 d.1 (λ q f h.
            view-set type lawful t e.key r q ∙ apart_step es e d.0 own.0 q (apart q) f h) in
        (
          out,
          rw (at-home type t e.key _ same, put-home type t e.key _ _ same) run,
          record {
            table = p.table;
            width = p.width ∙ length-set fresh _ _;
            total = omega (
              arith,
              p.total,
              length-flatten-set fresh _ (e ∷ bucket_of type m fresh e.key) (home-lt type t e.key),
            );
            finds = λ q.
                p.finds q
                ∙ rw (view-set type lawful t e.key r q)
                    (finds_step e es q d.0 own.0 (view type m fresh q));
          },
        )

    -- Both loops together, into empty buckets.
    pub move_all-Moved :
        {mask : ℕ} (bs : List (Bucket K V)) (n size : ℕ)
        → IsTable type mask bs
        → size ≡ length (flatten bs)
        → size < u32
        → m < n
        → Returns (move_all (length bs) m bs (replicate n []) size) (λ fresh.
          IsTable type m fresh
          × (length fresh ≡ n)
          × (length (flatten fresh) ≡ size)
          × ((q : K) → view type m fresh q ≡ view type mask bs q))
    unfolding or_else
    move_all-Moved {mask} bs n size t counted small fits =
        let all = flatten-IsListing type lawful mask bs t in
        let empty = replicate-IsTable type m n fits in
        let (r, run, p) =
          move_bucket-Moved (flatten bs) (replicate n []) size empty all.owns all.distinct
            (λ q _ _. view-replicate type m n q) in
        (
          r.0,
          rw (move_all-flatten (length bs) m bs _ size refl counted small, run),
          (
            p.table,
            rw p.width (length-replicate n []),
            rw (p.total, flatten-replicate) (omega (arith, counted)),
            λ q. rw (p.finds q, all.finds q, view-replicate) (ground arith),
          ),
        )
