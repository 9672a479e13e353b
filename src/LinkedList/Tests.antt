-- ===== src/LinkedList/Tests.antt =====
-- Lists on a heap, sorted, appended and released.
use dictionary.Base.{
  ℕ, ◌≡◌, refl, true, false, none, some, List, [], ◌∷◌, Run, ok, fault, ◌>>=◌, Returns, at, put,
  leb, arith,
}
use dictionary.LinkedList.{
  Heap, LinkedList, list_new, add_head, add_tail, remove_head, remove_tail, list_find, find_loop,
  list_release, release_nodes, append_list_tail, load, store, set_next, set_prev, set_content,
  release_node, node_new, link_before, link_self,
}
use dictionary.LinkedList.Ring.{Represents}
use dictionary.LinkedList.Add.{KeepsFlags, add_head-Represents, add_tail-Represents}
use dictionary.LinkedList.Remove.{remove_head-Represents, remove_tail-Represents}
use dictionary.LinkedList.Walk.{freed, list_release-freed}
use dictionary.LinkedList.Sort.{
  list_q_sort, sort_helper, sorted_range, sort_pivot, pivot_loop, step, swap, lock, unlock,
}

-- What the list gives up when it is released, with a function that frees.
abbrev contents : Heap ℕ → LinkedList → Run (List ℕ)
contents h l = list_release h (record l { freedata = true }) >>= λ r. elim r [
  | none ↦ fault
  | some (given, h') ↦ ok given
]

abbrev three : Run (Heap ℕ × LinkedList)
three =
    add_tail true [] list_new 2 >>= λ r. add_head true r.0 r.1 3 >>= λ s. add_tail true s.0 s.1 1

order : (three >>= λ r. contents r.0 r.1) ≡ ok (3 ∷ 2 ∷ 1 ∷ [])
unfolding add_tail add_head list_release release_nodes remove_head load store set_next set_prev
    release_node node_new link_before link_self at put
order = refl

last : (three >>= λ r. remove_tail r.0 r.1 >>= λ s. contents s.1 s.2) ≡ ok (3 ∷ 2 ∷ [])
unfolding add_tail add_head list_release release_nodes remove_head remove_tail load store set_next
    set_prev release_node node_new link_before link_self at put
last = refl

abbrev sort_and_list : Heap ℕ × LinkedList → Run (List ℕ)
sort_and_list (h, l) =
    list_q_sort 9 (some leb) h l >>= λ r. elim r [ none ↦ fault | some (h', l') ↦ contents h' l' ]

sorted : (three >>= sort_and_list) ≡ ok (1 ∷ 2 ∷ 3 ∷ [])
unfolding add_tail add_head load store set_next set_prev node_new link_before link_self at put
    list_q_sort sort_helper sorted_range sort_pivot pivot_loop step swap lock unlock set_content
    list_release release_nodes remove_head release_node
sorted = refl

-- A list behind itself, in another place of the heap.
joined :
    (three >>= λ r.
    add_tail true r.0 list_new 4 >>= λ s. append_list_tail s.0 r.1 s.1 >>= λ t. contents t.0 t.1)
    ≡ ok (3 ∷ 2 ∷ 1 ∷ 4 ∷ [])
unfolding add_tail add_head load store set_next set_prev node_new link_before link_self at put
    append_list_tail list_release release_nodes remove_head release_node
joined = refl

found : (three >>= λ r. list_find (λ n. leb n 2) r.0 r.1) ≡ ok (some 2)
unfolding add_tail add_head load store set_next set_prev node_new link_before link_self at put
    list_find find_loop
found = refl

-- Two nodes that hold 3 and 2.
abbrev two_heap : Heap ℕ
two_heap =
    some (record { content = 3; next = some 1; prev = some 1 })
    ∷ some (record { content = 2; next = some 0; prev = some 0 })
    ∷ []

abbrev two : LinkedList
two = record { len = 2; root = some 0; locked = false; freedata = true }

two-Represents : Represents two_heap two (3 ∷ 2 ∷ [])
two-Represents = (
  0,
  1 ∷ [],
  refl,
  refl,
  record {
    distinct = ((refl, tt), (tt, tt));
    nexts = (refl, (refl, tt));
    prevs = (refl, (refl, tt));
    holds = (refl, (refl, tt));
  },
)

add_head-Represents_example :
    Returns
      (add_head true two_heap two 5)
      (λ r. Represents r.0 r.1 (5 ∷ 3 ∷ 2 ∷ []) × KeepsFlags two r.1)
add_head-Represents_example =
    add_head-Represents two_heap two 5 (3 ∷ 2 ∷ []) two-Represents (omega arith)

add_tail-Represents_example :
    Returns
      (add_tail true two_heap two 5)
      (λ r. Represents r.0 r.1 (3 ∷ 2 ∷ 5 ∷ []) × KeepsFlags two r.1)
add_tail-Represents_example =
    add_tail-Represents two_heap two 5 (3 ∷ 2 ∷ []) two-Represents (omega arith)

remove_head-Represents_example :
    Returns
      (remove_head two_heap two)
      (λ r. (r.0 ≡ some 3) × Represents r.1 r.2 (2 ∷ []) × KeepsFlags two r.2)
remove_head-Represents_example = remove_head-Represents two_heap two (3 ∷ 2 ∷ []) two-Represents

remove_tail-Represents_example :
    Returns
      (remove_tail two_heap two)
      (λ r. (r.0 ≡ some 2) × Represents r.1 r.2 (3 ∷ []) × KeepsFlags two r.2)
remove_tail-Represents_example = remove_tail-Represents two_heap two (3 ∷ []) 2 two-Represents

list_release-freed_example :
    (h' : Heap ℕ) × (list_release two_heap two ≡ ok (some (freed two (3 ∷ 2 ∷ []), h')))
list_release-freed_example = list_release-freed two_heap two (3 ∷ 2 ∷ []) two-Represents
