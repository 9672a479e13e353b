-- ===== src/Hmap/Tests.antt =====
-- Runs of the table, and its theorems at small tables with the default callbacks.
use dictionary.Base.Text.{codes, bytes_eq}
use dictionary.Base.{
  ◌&&◌, true, if◌then◌else◌, get_or, ◌↔◌, ◌==◌, ◌-◌, bit_and, ℕ, ◌+◌, ◌%◌, ◌<◌, ◌≡◌, refl, ap, true,
  false, Option, none, some, List, [], ◌∷◌, arith, Returns, ok, Run, at, put, fault, ◌>>=◌, ◌≤◌,
  ◌^◌, flatten, length, if◌then◌else◌, is_some,
}
use dictionary.Hmap.Entries.{Models-entry}
use dictionary.Hmap.Fixed.{round_up_32_bit, create_fixed, create_fixed-outside}
use dictionary.Hmap.Hash.{
  default_type, default_type-IsLawful, hash_string, str_cmp, horner, hash_string-horner,
}
use dictionary.Hmap.Iterate.{
  iterate-reached, Iterator, iterator_create, Visits, release, release-take, length-reached,
}
use dictionary.Hmap.Refines.{Models, update, value?, contents, expand-Models, IsValid}
use dictionary.Hmap.Table.{replicate-IsTable, view-replicate}
use dictionary.Hmap.Lookup.{get-add}
use dictionary.Hmap.Bucket.{eqb}
use dictionary.Hmap.Update.{add-Models, delete-Models}
use dictionary.Hmap.{
  HmapType, min_capacity, u32, Entry, Hmap, Memory, Status, hm_ok, hm_found, expand, get, contains,
  add, delete,
}

abbrev plenty : Memory
plenty = record { struct = true; table = true; entry = true }

abbrev Word : Type 0
Word = List ℕ

-- Two buckets and no entry; the first insertion that finds one entry rebuilds it.
abbrev small : Hmap Word ℕ
small = record {
  size = 0;
  capacity = 2;
  mask = 1;
  rebuild_threshold = 1;
  fixed_size = false;
  entries = [] ∷ [] ∷ [];
}

program : Unit {0}
unfolding at put bytes_eq hash_string str_cmp get contains add delete
program = tt

abbrev cat : Word
cat = codes "cat"

abbrev dog : Word
dog = codes "dog"

-- "dog" comes after a rebuild, is not overwritten, and outlives "cat".
session : Run (Status × ℕ × Status × Option ℕ × Option ℕ × ℕ)
unfolding program
session = do
  (_, m₁) ← add default_type plenty small cat 1
  (s, m₂) ← add default_type plenty m₁ dog 2
  (again, m₃) ← add default_type plenty m₂ dog 3
  (_, m₄) ← delete default_type m₃ cat
  d ← get default_type m₄ dog
  c ← get default_type m₄ cat
  ok (s, m₂.capacity, again, d, c, m₄.size)

session_result : session ≡ ok (hm_ok, 4, hm_found, some 2, none, 1)
unfolding session
session_result = refl

hash_cat : hash_string cat ≡ 98262
unfolding hash_string
hash_cat = refl

small-Models : Models default_type (λ _. none) small
unfolding contents flatten
small-Models = record {
  valid = record {
    mask = refl;
    width = refl;
    counted = refl;
    small = omega arith;
    table = replicate-IsTable default_type 1 2 (omega arith);
  };
  reads = λ q. ap value? (view-replicate default_type 1 2 q);
}

hash_string-horner_example : hash_string cat ≡ horner cat % 2 ^ 32
hash_string-horner_example = hash_string-horner cat (omega arith)

abbrev one_word : Word → Option ℕ
one_word = update default_type (λ _. none) cat (some 1)

add-Models_example :
    Returns
      (add default_type plenty small cat 1)
      λ (status, hm'). (status ≡ hm_ok) × Models default_type one_word hm' × (hm'.size ≡ 1)
add-Models_example =
    add-Models default_type default_type-IsLawful plenty small-Models (omega arith) cat 1
      (omega arith)

-- The table that holds "cat".
abbrev filled : Hmap Word ℕ
filled = add-Models_example.0.1

filled-Models : Models default_type one_word filled
filled-Models = add-Models_example.2.1

small_empty : get default_type small cat ≡ ok none
unfolding program
small_empty = refl

get-add_example : Returns (add default_type plenty small cat 1) λ (status, hm').
    (status ≡ hm_ok)
    × IsValid default_type hm'
    × ((q : Word)
        → get default_type hm' q ≡ (
            if eqb default_type q cat && (true && true)
            then ok (some 1)
            else get default_type small q))
get-add_example =
    get-add default_type default_type-IsLawful plenty small cat 1 none small-Models.valid
      (omega arith) (omega arith) small_empty

Models-entry_example : (one_word cat ≡ some 1) ↔ (
    (i : ℕ) × (j : ℕ) × (e : Entry Word ℕ) × (at (get_or filled.entries i []) j ≡ ok e)
    × (e.key ≡ cat)
    × (e.value ≡ 1))
Models-entry_example = Models-entry default_type default_type-IsLawful filled-Models cat 1

expand-Models_example : Returns (expand plenty small) λ (status, hm').
    (status ≡ hm_ok) × Models default_type (λ _. none) hm' × (hm'.capacity ≡ 4) × (hm'.size ≡ 0)
expand-Models_example =
    expand-Models default_type default_type-IsLawful plenty small small-Models refl (omega arith)

delete-Models_example : Returns (delete default_type filled cat) λ (out, hm').
    (value? out ≡ one_word cat)
    × Models default_type (update default_type one_word cat none) hm'
    × (hm'.size + (if is_some (one_word cat) then 1 else 0) ≡ filled.size)
    × ((e : Entry Word ℕ) → out ≡ some e → e.key ≡ cat)
delete-Models_example = delete-Models default_type default_type-IsLawful filled-Models cat

abbrev entry : ℕ → Entry Word ℕ
entry n = record { key = n ∷ []; value = n; hash = n }

-- Three entries in the last of two buckets.
abbrev crowded : Hmap Word ℕ
crowded = record small { size = 3; entries = [] ∷ (entry 7 ∷ entry 5 ∷ entry 3 ∷ []) ∷ [] }

-- Two of them are missed.
iterate-reached_example :
    (it : Iterator Word ℕ) × (iterator_create true crowded ≡ some it) × Visits it (entry 7 ∷ [])
iterate-reached_example = iterate-reached crowded refl

-- One entry, in the second bucket: it is not freed.
abbrev single : Hmap Word ℕ
single = record small { size = 1; entries = [] ∷ (entry 7 ∷ []) ∷ [] }

release-take_example : (1 ≤ 2 → release single ≡ ok []) × (2 < 1 → release single ≡ fault)
release-take_example = release-take single

two_missed : 1 + 2 ≡ length (flatten crowded.entries)
two_missed = length-reached crowded.entries

-- A fixed table of 100000 entries gets a capacity of 2^17 in an array of 2^16 buckets.
rounded : round_up_32_bit 100000 ≡ 131072
unfolding round_up_32_bit
rounded = refl

abbrev number_type : HmapType ℕ
number_type = record { keycmp = λ a h b g. a == b; hash_fn = λ a. a }

far : min_capacity ≤ bit_and 65536 ((round_up_32_bit 100000 + u32 - 1) % u32)
far = rw rounded (omega arith)

create_fixed-outside_example :
    (hm : Hmap ℕ ℕ) × (create_fixed plenty 100000 ≡ some hm)
    × (get number_type hm 65536 ≡ fault)
    × (contains number_type plenty hm 65536 ≡ fault)
    × (add number_type plenty hm 65536 7 ≡ fault)
    × (delete number_type hm 65536 ≡ fault)
create_fixed-outside_example =
    create_fixed-outside ℕ number_type plenty 100000 65536 7 refl refl far
