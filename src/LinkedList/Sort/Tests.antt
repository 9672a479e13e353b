-- ===== src/LinkedList/Sort/Tests.antt =====
-- A ring of three nodes, sorted.
use mathlib.Core.List.{Perm}
use dictionary.Base.{ℕ, ◌≡◌, refl, false, some, List, [], ◌∷◌, Returns, leb, arith}
use dictionary.LinkedList.{Heap, LinkedList}
use dictionary.LinkedList.Ring.{Represents}
use dictionary.LinkedList.Sort.{list_q_sort}
use dictionary.LinkedList.Sort.Range.{IsOrder}
use dictionary.LinkedList.Sort.Whole.{IsSorted, list_q_sort-IsSorted}

abbrev heap : Heap ℕ
heap =
    some (record { content = 3; next = some 1; prev = some 2 })
    ∷ some (record { content = 1; next = some 2; prev = some 0 })
    ∷ some (record { content = 2; next = some 0; prev = some 1 })
    ∷ []

abbrev whole : LinkedList
whole = record { root = some 0; len = 3; freedata = false; locked = false }

whole-Represents : Represents heap whole (3 ∷ 1 ∷ 2 ∷ [])
whole-Represents = (
  0,
  1 ∷ 2 ∷ [],
  refl,
  refl,
  record {
    distinct = ((refl, (refl, tt)), ((refl, tt), (tt, tt)));
    nexts = (refl, (refl, (refl, tt)));
    prevs = (refl, (refl, (refl, tt)));
    holds = (refl, (refl, (refl, tt)));
  },
)

leb-IsOrder : IsOrder leb
leb-IsOrder = record { total = λ x y h. ground arith; trans = λ x y z h k. ground arith }

list_q_sort-IsSorted_example : Returns (list_q_sort 3 (some leb) heap whole) (λ r.
    (h' : Heap ℕ) × (ys : List ℕ) × (r ≡ some (h', record whole { locked = false }))
    × Represents h' whole ys
    × Perm (3 ∷ 1 ∷ 2 ∷ []) ys
    × IsSorted leb ys)
list_q_sort-IsSorted_example =
    list_q_sort-IsSorted leb leb-IsOrder 3 heap whole (3 ∷ 1 ∷ 2 ∷ []) whole-Represents refl
      (omega arith)
